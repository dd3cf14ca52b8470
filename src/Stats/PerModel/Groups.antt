-- ===== src/Stats/PerModel/Groups.antt =====
-- The groups of `perModel`: each holds the events of its model in order, and each event with a model
-- is in one group.
use mathlib.Core.List.{append_assoc}
use mathlib.Core.Option.{some-injective}
use relay_local.Prelude.{
  suc, ◌+◌, ◌<◌, ◌≡◌, refl, sym, ap, ◌∙◌, inl, inr, Bool, false, ◌&&◌, Option, none, some, List, [],
  ◌∷◌, ◌++◌, String, arith, foldl, filter, length, length-append, All, All-both, All-imp, str_eq,
  str_eq_iff, if◌then◌else◌, Bool-cases, sum_by,
}
use relay_local.Api.{HistoryEvent, lookup, is_text}
use relay_local.Stats.Events.{has_text}
use relay_local.Stats.PerModel.{Groups, add_to_group, group_event, groups_of}

-- The events of a model. (A missing or empty name is no model.)
abbrev pub is_of_model : String → HistoryEvent → Bool
is_of_model model e = is_text e.model model && has_text e.model

abbrev pub events_of_model : List HistoryEvent → String → List HistoryEvent
events_of_model events model = filter (is_of_model model) events

abbrev list_of {ℓ} : {A : Type ℓ} → Option (List A) → List A
list_of none = []
list_of (some l) = l

lookup-add_to_group :
    (model : String) (e : HistoryEvent) (groups : Groups) (k : String)
    → lookup (add_to_group model e groups) k
      ≡ (if str_eq model k then some (list_of (lookup groups k) ++ (e ∷ [])) else lookup groups k)
unfolding add_to_group lookup
lookup-add_to_group model e [] k = ground arith
lookup-add_to_group model e ((name, group) ∷ groups) k = ground (
  arith,
  str_eq_iff model k,
  str_eq_iff name k,
  str_eq_iff name model,
  lookup-add_to_group model e groups k,
)

lookup-group_event :
    (name : Option String) (e : HistoryEvent) (groups : Groups) (k : String)
    → lookup (group_event name e groups) k ≡ (
        if is_text name k && has_text name
        then some (list_of (lookup groups k) ++ (e ∷ []))
        else lookup groups k)
unfolding group_event
lookup-group_event none e groups k = refl
lookup-group_event (some model) e groups k = ground (arith, lookup-add_to_group model e groups k)

-- What a group becomes when events are appended.
abbrev extend {ℓ} : {A : Type ℓ} → Option (List A) → List A → Option (List A)
extend o [] = o
extend o (x ∷ xs) = some (list_of o ++ (x ∷ xs))

extend-append {ℓ} :
    {A : Type ℓ} (o : Option (List A)) (x : A) (xs : List A)
    → extend (some (list_of o ++ (x ∷ []))) xs ≡ extend o (x ∷ xs)
extend-append o x [] = refl
extend-append o x (y ∷ xs) = ap some (append_assoc (list_of o) (x ∷ []) (y ∷ xs))

lookup-foldl :
    (events : List HistoryEvent) (groups : Groups) (k : String)
    → lookup (foldl (λ gs e. group_event e.model e gs) groups events) k
      ≡ extend (lookup groups k) (events_of_model events k)
lookup-foldl [] groups k = refl
lookup-foldl (e ∷ events) groups k = elim (Bool-cases (is_of_model k e)) [
  | inl own ↦
      rw (lookup-foldl events (group_event e.model e groups) k, lookup-group_event, own)
        (extend-append (lookup groups k) e (events_of_model events k))
  | inr other ↦ rw (lookup-foldl events (group_event e.model e groups) k, lookup-group_event, other)
]

abbrev pub HasNoKey : String → Groups → Type 0
HasNoKey k = All (λ g. str_eq g.0 k ≡ false)

-- No two groups have one name.
abbrev pub HasDistinctKeys : Groups → Type 0
HasDistinctKeys [] = Unit
HasDistinctKeys ((k, l) ∷ groups) = HasNoKey k groups × HasDistinctKeys groups

HasNoKey-add_to_group :
    (k model : String) (e : HistoryEvent) (groups : Groups)
    → str_eq model k ≡ false
    → HasNoKey k groups
    → HasNoKey k (add_to_group model e groups)
unfolding add_to_group
HasNoKey-add_to_group k model e [] h a = (h, tt)
HasNoKey-add_to_group k model e ((name, group) ∷ groups) h (p, a) =
    elim (Bool-cases (str_eq name model)) [
      | inl here ↦ rw here (p, a)
      | inr later ↦ rw later (p, HasNoKey-add_to_group k model e groups h a)
    ]

str_eq_sym : (s t : String) → str_eq s t ≡ false → str_eq t s ≡ false
str_eq_sym s t h = ground (arith, str_eq_iff s t, str_eq_iff t s)

add_to_group-HasDistinctKeys :
    (model : String) (e : HistoryEvent) (groups : Groups)
    → HasDistinctKeys groups
    → HasDistinctKeys (add_to_group model e groups)
unfolding add_to_group
add_to_group-HasDistinctKeys model e [] d = (tt, tt)
add_to_group-HasDistinctKeys model e ((name, group) ∷ groups) (n, d) =
    elim (Bool-cases (str_eq name model)) [
      | inl here ↦ rw here (n, d)
      | inr later ↦ rw later (
        HasNoKey-add_to_group name model e groups (str_eq_sym name model later) n,
        add_to_group-HasDistinctKeys model e groups d,
      )
    ]

group_event-HasDistinctKeys :
    (name : Option String) (e : HistoryEvent) (groups : Groups)
    → HasDistinctKeys groups
    → HasDistinctKeys (group_event name e groups)
unfolding group_event
group_event-HasDistinctKeys none e groups d = d
group_event-HasDistinctKeys (some model) e groups d = elim (Bool-cases (has_text (some model))) [
  | inl named ↦ rw named (add_to_group-HasDistinctKeys model e groups d)
  | inr unnamed ↦ rw unnamed d
]

foldl-HasDistinctKeys :
    (events : List HistoryEvent) (groups : Groups)
    → HasDistinctKeys groups
    → HasDistinctKeys (foldl (λ gs e. group_event e.model e gs) groups events)
foldl-HasDistinctKeys [] groups d = d
foldl-HasDistinctKeys (e ∷ events) groups d =
    foldl-HasDistinctKeys events (group_event e.model e groups)
      (group_event-HasDistinctKeys e.model e groups d)

-- With distinct keys each group is what a lookup of its key finds.
All-lookup :
    (groups : Groups) → HasDistinctKeys groups → All (λ g. lookup groups g.0 ≡ some g.1) groups
unfolding lookup
All-lookup [] d = tt
All-lookup ((k, l) ∷ groups) (n, d) = (
  rw ((str_eq_iff k k).1 refl),
  All-both {A = String × List HistoryEvent} {P = λ g. str_eq g.0 k ≡ false}
      {Q = λ g. lookup groups g.0 ≡ some g.1} (λ g. lookup ((k, l) ∷ groups) g.0 ≡ some g.1)
      (λ g absent found. rw (str_eq_sym g.0 k absent) found) groups n (All-lookup groups d),
)

-- A group holds the events of its model, in their order, and is not empty; every event with a model is
-- in the group that bears its name; and no two groups bear one name.
pub groups_of-HasDistinctKeys : (events : List HistoryEvent) → HasDistinctKeys (groups_of events)
unfolding groups_of
groups_of-HasDistinctKeys events = foldl-HasDistinctKeys events [] tt

lookup-groups_of :
    (events : List HistoryEvent) (k : String)
    → lookup (groups_of events) k ≡ extend none (events_of_model events k)
unfolding groups_of lookup
lookup-groups_of events k = lookup-foldl events [] k

abbrev pub IsGroupOf : List HistoryEvent → String × List HistoryEvent → Type 0
IsGroupOf events (model, group) = (group ≡ events_of_model events model) × (0 < length group)

IsGroupOf-of_lookup :
    (events : List HistoryEvent) (model : String) (group : List HistoryEvent)
    → lookup (groups_of events) model ≡ some group
    → IsGroupOf events (model, group)
IsGroupOf-of_lookup events model group found =
    on_events (events_of_model events model) (sym (lookup-groups_of events model) ∙ found)
  where
    on_events :
        (own : List HistoryEvent)
        → extend none own ≡ some group
        → (group ≡ own) × (0 < length group)
    on_events [] e = cc
    on_events (x ∷ xs) e = let same = some-injective _ _ e in rw (← same) (refl, omega arith)

pub groups_of-IsGroupOf : (events : List HistoryEvent) → All (IsGroupOf events) (groups_of events)
groups_of-IsGroupOf events =
    All-imp (IsGroupOf events) (λ g found. IsGroupOf-of_lookup events g.0 g.1 found)
      (groups_of events) (All-lookup (groups_of events) (groups_of-HasDistinctKeys events))

-- Every event with a model is counted in one group.
total-add_to_group :
    (model : String) (e : HistoryEvent) (groups : Groups)
    → sum_by (λ g. length g.1) (add_to_group model e groups) ≡ suc (sum_by (λ g. length g.1) groups)
unfolding add_to_group
total-add_to_group model e [] = refl
total-add_to_group model e ((name, group) ∷ groups) =
    ground (arith, length-append group (e ∷ []), total-add_to_group model e groups)

total-group_event :
    (name : Option String) (e : HistoryEvent) (groups : Groups)
    → sum_by (λ g. length g.1) (group_event name e groups)
      ≡ (if has_text name then 1 else 0) + sum_by (λ g. length g.1) groups
unfolding group_event
total-group_event none e groups = omega arith
total-group_event (some model) e groups = ground (arith, total-add_to_group model e groups)

pub total-foldl :
    (events : List HistoryEvent) (groups : Groups)
    → sum_by (λ g. length g.1) (foldl (λ gs e. group_event e.model e gs) groups events)
      ≡ length (filter (λ e. has_text e.model) events) + sum_by (λ g. length g.1) groups
total-foldl [] groups = omega arith
total-foldl (e ∷ events) groups =
    ground
      (arith, total-foldl events (group_event e.model e groups), total-group_event e.model e groups)

pub total-groups_of :
    (events : List HistoryEvent)
    → sum_by (λ g. length g.1) (groups_of events) ≡ length (filter (λ e. has_text e.model) events)
unfolding groups_of
total-groups_of events = omega (arith, total-foldl events [])
