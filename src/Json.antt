-- ===== src/Json.antt =====
-- JSON values as Go's `encoding/json` decodes them into `any`, and how `fmt.Sprint` prints them.
-- A number keeps the integer that `int(v)` makes of the `float64`, and the text that is printed.
-- A raw message is what the code tells apart before and while it decodes: no bytes, text that does
-- not decode, or a value. The keys of a decoded object are distinct.
use Prim.Native.Char.{code}
use Prim.Native.String.{◌++◌ as join}
use duraclaw.Shared.{
  ℕ, zero, suc, ◌+◌, ◌/◌, ◌%◌, ◌&&◌, ◌||◌, ltb, leb, ◌==◌, Bool, true, false, List, [], ◌∷◌, String,
  Option, none, some, str_eq, str_le, if◌then◌else◌, sort_by,
}

pub data ℤ : Type 0 where
  pos : ℕ → ℤ
  negsuc : ℕ → ℤ

mutual
  pub data Json : Type 0 where
    null : Json
    boolean : Bool → Json
    number : ℤ → String → Json
    text : String → Json
    array : Items → Json
    object : Fields → Json

  pub data Items : Type 0 where
    nil : Items
    cons : Json → Items → Items

  pub data Fields : Type 0 where
    end : Fields
    field : String → Json → Fields → Fields

pub data Raw : Type 0 where
  empty : Raw
  malformed : Raw
  decoded : Json → Raw

-- `m[key]` with its `ok`: none where the key is missing.
abbrev pub get_field : String → Fields → Option Json
get_field k end = none
get_field k (field j v fs) = if str_eq j k then some v else get_field k fs

-- `m[key]` alone: nil where the key is missing.
abbrev pub field_or_null : String → Fields → Json
field_or_null k fs = elim (get_field k fs) [ none ↦ null | some v ↦ v ]

abbrev pub to_list : Items → List Json
to_list nil = []
to_list (cons x xs) = x ∷ to_list xs

-- `s, _ := v.(string)`.
abbrev pub string_or_empty : Json → String
string_or_empty (text s) = s
string_or_empty _ = ""

-- `m, ok := v.(map[string]any)`.
abbrev pub as_object : Json → Option Fields
as_object (object fs) = some fs
as_object _ = none

abbrev pub as_array : Json → Option Items
as_array (array xs) = some xs
as_array _ = none

separated : String → List String → String
separated s [] = ""
separated s (x ∷ []) = x
separated s (x ∷ y ∷ r) = join x (join s (separated s (y ∷ r)))

key_le : String × String → String × String → Bool
key_le a b = str_le a.0 b.0

entries : List (String × String) → List String
entries [] = []
entries ((k, v) ∷ r) = join k (join ":" v) ∷ entries r

unfoldable mutual
  unfolding separated entries key_le

  -- `fmt.Sprint`.
  pub sprint : Json → String
  sprint null = "<nil>"
  sprint (boolean b) = if b then "true" else "false"
  sprint (number n t) = t
  sprint (text s) = s
  sprint (array xs) = join "[" (join (separated " " (sprint_items xs)) "]")
  sprint (object fs) =
      join "map[" (join (separated " " (entries (sort_by key_le (sprint_fields fs)))) "]")

  pub sprint_items : Items → List String
  sprint_items nil = []
  sprint_items (cons x xs) = sprint x ∷ sprint_items xs

  pub sprint_fields : Fields → List (String × String)
  sprint_fields end = []
  sprint_fields (field k v fs) = (k, sprint v) ∷ sprint_fields fs

-- `m[key] = value`.
abbrev pub set_field : String → Json → Fields → Fields
set_field k v end = field k v end
set_field k v (field j w fs) = if str_eq j k then field k v fs else field j w (set_field k v fs)

abbrev pub items_length : Items → ℕ
items_length nil = 0
items_length (cons x xs) = items_length xs + 1

abbrev pub items_take : ℕ → Items → Items
items_take zero xs = nil
items_take (suc n) nil = nil
items_take (suc n) (cons x xs) = cons x (items_take n xs)

-- A number in decimal, as `strconv.Itoa` writes it; a number has no more digits than it has units.
pick : List String → ℕ → String
pick [] n = ""
pick (d ∷ ds) zero = d
pick (d ∷ ds) (suc n) = pick ds n

digit : ℕ → String
unfolding pick
digit n = pick ("0" ∷ "1" ∷ "2" ∷ "3" ∷ "4" ∷ "5" ∷ "6" ∷ "7" ∷ "8" ∷ "9" ∷ []) n

digits : ℕ → ℕ → String
unfolding digit
digits zero n = digit n
digits (suc fuel) n =
    let rest = digits fuel (n / 10) in if ltb n 10 then digit n else join rest (digit (n % 10))

unfoldable pub decimal : ℕ → String
unfolding digits
decimal n = digits n n

-- `unicode.IsSpace`, and `strings.TrimSpace(s) == ""`.
unfoldable pub is_space : ℕ → Bool
is_space c =
    (leb 9 c && leb c 13)
    || (c == 32)
    || (c == 133)
    || (c == 160)
    || (c == 5760)
    || (leb 8192 c && leb c 8202)
    || (c == 8232)
    || (c == 8233)
    || (c == 8239)
    || (c == 8287)
    || (c == 12288)

unfoldable pub is_blank : String → Bool
unfolding is_space
is_blank String.[] = true
is_blank (String.◌∷◌ c s) = if is_space (code c) then is_blank s else false
