-- ===== src/Outbound/Groups/Laws.antt =====
-- Grouping loses no item and keeps the order within a topic.
use duraclaw.Outbound.{Item}
use duraclaw.Outbound.Groups.{TopicGroup, topic_of, add_item, group_from, group_by_topic}
use duraclaw.Shared.{
  ◌≡◌, ◌≢◌, refl, sym, ap, subst, ◌∙◌, inl, inr, arith, Bool, true, false, List, [], ◌∷◌, ◌++◌,
  String, str_eq, str_eq_iff, contains, keep, All, Bool-cases, append_assoc, append_nil,
  if◌then◌else◌,
}

abbrev pub has_topic : String → Item → Bool
has_topic t item = str_eq (topic_of item) t

-- The items of the first group of a topic.
abbrev pub items_under : String → List TopicGroup → List Item
items_under t [] = []
items_under t (g ∷ gs) = if str_eq g.topic t then g.items else items_under t gs

abbrev pub topics : List TopicGroup → List String
topics [] = []
topics (g ∷ gs) = g.topic ∷ topics gs

abbrev pub NoTwice : List String → Type 0
NoTwice [] = Unit
NoTwice (t ∷ ts) = (contains ts t ≡ false) × NoTwice ts

-- Under each topic stand its items in their order; no topic has two groups, and no group is empty.
pub record Grouped (items : List Item) (groups : List TopicGroup) : Type 0 where
  pub by_topic : (t : String) → items_under t groups ≡ keep (has_topic t) items
  pub once : NoTwice (topics groups)
  pub filled : All (λ g. g.items ≢ []) groups

one_more : Item → String → List Item → List Item
one_more item t xs = if has_topic t item then xs ++ item ∷ [] else xs

keep-snoc :
    (t : String) (xs : List Item) (item : Item)
    → keep (has_topic t) (xs ++ item ∷ []) ≡ one_more item t (keep (has_topic t) xs)
unfolding one_more
keep-snoc t [] item = elim (Bool-cases (has_topic t item)) [ inl h ↦ rw h refl | inr h ↦ rw h refl ]
keep-snoc t (x ∷ xs) item =
    let rest = keep-snoc t xs item in
    elim (Bool-cases (has_topic t x)) [
      | inr f ↦ rw f rest
      | inl f ↦ elim (Bool-cases (has_topic t item)) [
        | inl h ↦ rw (f, h) (ap (λ l. x ∷ l) (rw h at rest))
        | inr h ↦ rw (f, h) (ap (λ l. x ∷ l) (rw h at rest))
      ]
    ]

other_topic : (a b t : String) → str_eq a b ≡ false → str_eq a t ≡ true → str_eq b t ≡ false
other_topic a b t f k = ground (arith, str_eq_iff a b, str_eq_iff a t, str_eq_iff b t)

same_topic : (a b t : String) → str_eq a b ≡ true → str_eq a t ≡ str_eq b t
same_topic a b t h = ap (λ x. str_eq x t) ((str_eq_iff a b).0 h)

add_item-under :
    (item : Item) (t : String) (gs : List TopicGroup)
    → items_under t (add_item item gs) ≡ one_more item t (items_under t gs)
unfolding add_item one_more
add_item-under item t [] = refl
add_item-under item t (g ∷ gs) =
    let rest = add_item-under item t gs in
    elim (Bool-cases (str_eq g.topic (topic_of item))) [
      | inl h ↦
          let e = same_topic g.topic (topic_of item) t h in
          elim (Bool-cases (str_eq g.topic t)) [
            | inl k ↦ rw (h, k, sym e ∙ k) refl
            | inr k ↦ rw (h, k, sym e ∙ k) refl
          ]
      | inr h ↦ elim (Bool-cases (str_eq g.topic t)) [
        | inr k ↦ rw (h, k) rest
        | inl k ↦ rw (h, k, other_topic g.topic (topic_of item) t h k) refl
      ]
    ]

-- The topics after one more item.
add_item-lacks :
    (item : Item) (t : String) (gs : List TopicGroup)
    → contains (topics gs) t ≡ false
    → str_eq (topic_of item) t ≡ false
    → contains (topics (add_item item gs)) t ≡ false
unfolding add_item
add_item-lacks item t [] c f = rw f refl
add_item-lacks item t (g ∷ gs) c f = elim (Bool-cases (str_eq g.topic (topic_of item))) [
  | inl h ↦ rw h c
  | inr h ↦ elim (Bool-cases (str_eq g.topic t)) [
    | inl k ↦ absurd (ground arith)
    | inr k ↦ rw (h, k) (add_item-lacks item t gs (rw k at c) f)
  ]
]

str_eq_sym : (a b : String) → str_eq a b ≡ false → str_eq b a ≡ false
str_eq_sym a b f = ground (arith, str_eq_iff a b, str_eq_iff b a)

add_item-NoTwice :
    (item : Item) (gs : List TopicGroup) → NoTwice (topics gs) → NoTwice (topics (add_item item gs))
unfolding add_item
add_item-NoTwice item [] u = (refl, tt)
add_item-NoTwice item (g ∷ gs) u = elim (Bool-cases (str_eq g.topic (topic_of item))) [
  | inl h ↦ rw h u
  | inr h ↦ rw h (
    add_item-lacks item g.topic gs u.0 (str_eq_sym g.topic (topic_of item) h),
    add_item-NoTwice item gs u.1,
  )
]

snoc_filled : (xs : List Item) (item : Item) → xs ++ item ∷ [] ≢ []
snoc_filled [] item e = cc
snoc_filled (x ∷ xs) item e = cc

add_item-filled :
    (item : Item) (gs : List TopicGroup)
    → All (λ g. g.items ≢ []) gs
    → All (λ g. g.items ≢ []) (add_item item gs)
unfolding add_item
add_item-filled item [] a = ((λ e. cc), tt)
add_item-filled item (g ∷ gs) a = elim (Bool-cases (str_eq g.topic (topic_of item))) [
  | inl h ↦ rw h (snoc_filled g.items item, a.1)
  | inr h ↦ rw h (a.0, add_item-filled item gs a.1)
]

group_from-Grouped :
    (seen items : List Item) (gs : List TopicGroup)
    → Grouped seen gs
    → Grouped (seen ++ items) (group_from gs items)
unfolding group_from
group_from-Grouped seen [] gs h = subst (λ l. Grouped l gs) (sym (append_nil seen)) h
group_from-Grouped seen (item ∷ items) gs h =
    subst (λ l. Grouped l (group_from (add_item item gs) items))
      (append_assoc seen (item ∷ []) items)
      (group_from-Grouped (seen ++ item ∷ []) items (add_item item gs) (record {
        by_topic = λ t.
            add_item-under item t gs
            ∙ ap (one_more item t) (h.by_topic t)
            ∙ sym (keep-snoc t seen item);
        once = add_item-NoTwice item gs h.once;
        filled = add_item-filled item gs h.filled;
      }))

-- `groupByTopic` puts the items of each topic into one group, in their order and none of them lost; no
-- topic has two groups, and no group is empty.
pub group_by_topic-Grouped : (items : List Item) → Grouped items (group_by_topic items)
unfolding group_by_topic
group_by_topic-Grouped items =
    group_from-Grouped [] items [] (record { by_topic = λ t. refl; once = tt; filled = tt })
