-- ===== src/Agent/Session/Tasks.antt =====
-- The slots of an agent against the tasks of its session: each request that executes holds one place
-- of its slot.
use relay_local.Prelude.{
  ℕ, ◌+◌, ◌≡◌, ◌≢◌, refl, sym, subst, ap, ◌∙◌, inl, inr, Bool, true, false, ◌&&◌, some, List, [],
  ◌∷◌, ◌++◌, String, modify, get_elem?, ◌==◌, ==_iff, Option-cases, ℕ_discrete, arith,
}
use relay_local.Prelude.Counts.{
  one_if, remove_at, count_by-append, count_by-modify, count_by-remove_at, get_elem?-modify_self,
  get_elem?-modify_other,
}
use relay_local.Prelude.Sort.{count_by}
use relay_local.Prelude.Int.{pos, leb_ℤ, ◌≤ℤ◌, ◌+ℤ◌, ◌-ℤ◌}
use mathlib.Core.Option
use mathlib.Core.Option.{some-injective}
use relay_local.Config
use relay_local.Config.Accepted
use relay_local.Discovery.{Listings, Reply}
use relay_local.Discovery.Offered.{IsAnnounced, discover-IsAnnounced}
use relay_local.Agent.Slots.{Slot, refresh, occupy, release}
use relay_local.Agent.Session.{Phase, executing, Task}

abbrev pub is_executing : Phase → Bool
is_executing executing = true
is_executing _ = false

abbrev pub holds : ℕ → Task → Bool
holds i t = t.slot == i && is_executing t.phase

-- The requests that execute on the slot at a place.
abbrev pub busy : ℕ → List Task → ℕ
busy i tasks = count_by (holds i) tasks

-- What holds of a slot with `n` requests that execute on it.
pub record Bears (n : ℕ) (x : Slot) : Type 0 where
  pub counted : x.active ≡ pos n
  pub fits : pos n ≤ℤ x.config.concurrency
  pub announced : IsAnnounced x.config x.catalog

abbrev pub AreHeld : List Slot → List Task → Type 0
AreHeld slots tasks = (i : ℕ) (x : Slot) → get_elem? slots i ≡ some x → Bears (busy i tasks) x

Bears-occupy :
    (n : ℕ) (x : Slot)
    → leb_ℤ x.catalog.capacity x.active ≡ false
    → Bears n x
    → Bears (n + 1) (record x { active = x.active +ℤ pos 1 })
unfolding ◌+ℤ◌
Bears-occupy n x free b =
    let room : leb_ℤ x.config.concurrency (pos n) ≡ false =
      subst (λ c. leb_ℤ c (pos n) ≡ false) b.announced.room
        (subst (λ a. leb_ℤ x.catalog.capacity a ≡ false) b.counted free) in
    record { counted = rw b.counted (ground arith); fits = ground arith; announced = b.announced }

Bears-release :
    (n : ℕ) (x : Slot) → Bears (n + 1) x → Bears n (record x { active = x.active -ℤ pos 1 })
unfolding ◌-ℤ◌
Bears-release n x b = record {
  counted = rw b.counted (ground arith);
  fits = let f = b.fits in omega arith;
  announced = b.announced;
}

-- A change of the slot at one place.
AreHeld-modify :
    (f : Slot → Slot) (slots : List Slot) (k : ℕ) (tasks tasks' : List Task)
    → AreHeld slots tasks
    → ((x : Slot) → get_elem? slots k ≡ some x → Bears (busy k tasks') (f x))
    → ((i : ℕ) → k ≢ i → busy i tasks' ≡ busy i tasks)
    → AreHeld (modify slots k f) tasks'
AreHeld-modify f slots k tasks tasks' held at others i x e = elim (ℕ_discrete k i) [
  | yes same ↦
      let e' : get_elem? (modify slots k f) k ≡ some x =
        subst (λ j. get_elem? (modify slots k f) j ≡ some x) (sym same) e in
      elim (Option-cases (get_elem? slots k)) [
        | inl none' ↦ absurd (ground (arith, get_elem?-modify_self f slots k))
        | inr (y, found) ↦
            let is : some (f y) ≡ some x =
              ap (Option.map f) (sym found) ∙ (sym (get_elem?-modify_self f slots k) ∙ e') in
            subst (λ i. Bears (busy i tasks') x) same
              (subst (Bears (busy k tasks')) (some-injective _ _ is) (at y found))
      ]
  | no other ↦
      subst (λ n. Bears n x) (sym (others i other))
        (held i x (sym (get_elem?-modify_other f slots k i other) ∙ e))
]

count-other :
    (f : Task → Task) (tasks : List Task) (k i : ℕ) {t : Task}
    → get_elem? tasks k ≡ some t
    → holds i (f t) ≡ holds i t
    → busy i (modify tasks k f) ≡ busy i tasks
count-other f tasks k i {t} e same =
    let counted = count_by-modify (holds i) f tasks k e in
    let equal : one_if (holds i (f t)) ≡ one_if (holds i t) = ap one_if same in omega arith

-- A request takes a place of its slot.
pub AreHeld-occupy :
    (slots : List Slot) (tasks : List Task) (id : String) (k : ℕ) {x : Slot}
    → get_elem? slots k ≡ some x
    → leb_ℤ x.catalog.capacity x.active ≡ false
    → AreHeld slots tasks
    → AreHeld (occupy k slots) (tasks ++ (record { id = id; slot = k; phase = executing } ∷ []))
unfolding occupy
AreHeld-occupy slots tasks id k {x} e free held =
    let t : Task = record { id = id; slot = k; phase = executing } in
    AreHeld-modify (λ (s : Slot). record s { active = s.active +ℤ pos 1 }) slots k tasks
      (tasks ++ (t ∷ [])) held
      (λ y at.
        let n : busy k (tasks ++ (t ∷ [])) ≡ busy k tasks + 1 =
          ground (arith, count_by-append (holds k) tasks (t ∷ []), ==_iff k k) in
        let is : x ≡ y = some-injective _ _ (sym e ∙ at) in
        subst (λ n. Bears n (record y { active = y.active +ℤ pos 1 })) (sym n)
          (Bears-occupy (busy k tasks) y
            (subst (λ (y : Slot). leb_ℤ y.catalog.capacity y.active ≡ false) is free)
            (held k y at)))
      (λ i ne. ground (arith, count_by-append (holds i) tasks (t ∷ []), ==_iff k i))

-- A request that has been answered gives its place back.
pub AreHeld-release :
    (slots : List Slot) (tasks : List Task) (f : Task → Task) (k : ℕ) {t : Task}
    → get_elem? tasks k ≡ some t
    → t.phase ≡ executing
    → is_executing (f t).phase ≡ false
    → AreHeld slots tasks
    → AreHeld (release t.slot slots) (modify tasks k f)
unfolding release
AreHeld-release slots tasks f k {t} e runs ends held =
    AreHeld-modify (λ (s : Slot). record s { active = s.active -ℤ pos 1 }) slots t.slot tasks
      (modify tasks k f) held
      (λ y at.
        let was : one_if (holds t.slot t) ≡ 1 = rw runs (ground (arith, ==_iff t.slot t.slot)) in
        let now : one_if (holds t.slot (f t)) ≡ 0 = rw ends (ground arith) in
        let n : busy t.slot tasks ≡ busy t.slot (modify tasks k f) + 1 =
          omega (arith, count_by-modify (holds t.slot) f tasks k e) in
        Bears-release (busy t.slot (modify tasks k f)) y
          (subst (λ n. Bears n y) n (held t.slot y at)))
      (λ i ne. count-other f tasks k i e (ground (arith, ==_iff t.slot i)))

-- A task that does not execute may go on and leave.
pub AreHeld-go_on :
    (slots : List Slot) (tasks : List Task) (f : Task → Task) (k : ℕ) {t : Task}
    → get_elem? tasks k ≡ some t
    → is_executing t.phase ≡ false
    → is_executing (f t).phase ≡ false
    → AreHeld slots tasks
    → AreHeld slots (modify tasks k f)
AreHeld-go_on slots tasks f k {t} e idle ends held i x at =
    subst (λ n. Bears n x) (sym (count-other f tasks k i e (ground arith))) (held i x at)

pub AreHeld-leave :
    (slots : List Slot) (tasks : List Task) (k : ℕ) {t : Task}
    → get_elem? tasks k ≡ some t
    → is_executing t.phase ≡ false
    → AreHeld slots tasks
    → AreHeld slots (remove_at tasks k)
AreHeld-leave slots tasks k {t} e idle held i x at =
    let none' : one_if (holds i t) ≡ 0 = ground arith in
    let same : busy i tasks ≡ busy i (remove_at tasks k) =
      omega (arith, count_by-remove_at (holds i) tasks k e) in
    subst (λ n. Bears n x) same (held i x at)

-- A slot may ask its backend again at any time.
pub AreHeld-refresh :
    (json : Listings) (net : Config.Urls.Net) (reply : Reply) (slots : List Slot)
    (tasks : List Task) (k : ℕ)
    → ((x : Slot) → get_elem? slots k ≡ some x → Config.Accepted.IsBackend net x.config)
    → AreHeld slots tasks
    → AreHeld (modify slots k (refresh json reply)) tasks
unfolding refresh
AreHeld-refresh json net reply slots tasks k valid held =
    AreHeld-modify (refresh json reply) slots k tasks tasks held
      (λ x at.
        let b = held k x at in
        record {
          counted = b.counted;
          fits = b.fits;
          announced = discover-IsAnnounced json net x.config reply (valid x at);
        })
      (λ i ne. refl)
