-- ===== src/Agent/Session/Ledger.antt =====
-- Which attempts of a session are answered: each that was asked for, once.
use relay_local.Prelude.{
  ℕ, ◌+◌, ◌≤◌, ◌≡◌, sym, subst, ap, ◌∙◌, Bool, true, false, not, ◌&&◌, some, List, [], ◌∷◌, ◌++◌,
  String, modify, get_elem?, filter, All, All-snoc, All-get_elem?, if◌then◌else◌, str_eq,
  str_eq_iff, arith,
}
use relay_local.Prelude.Counts.{
  one_if, remove_at, count_by-append, count_by-modify, count_by-remove_at, All-modify,
  All-remove_at,
}
use relay_local.Prelude.Sort.{count_by}
use mathlib.Core.Option.{some-injective}
use relay_local.Protocol.{Message, has_key}
use relay_local.Agent.Session.{Phase, executing, released, deleted, Task}

abbrev pub is_answer : String → Message → Bool
is_answer id m = str_eq m.attempt_id id

abbrev pub is_task : String → Task → Bool
is_task id t = str_eq t.id id

abbrev pub is_deleted : Phase → Bool
is_deleted (deleted m) = true
is_deleted _ = false

-- The tasks of an attempt whose id is still in the map of those that can be canceled.
abbrev pub is_active : String → Task → Bool
is_active id t = is_task id t && not (is_deleted t.phase)

-- The last message of a task, once there is one, names its attempt.
abbrev pub IsNamed : String → Phase → Type 0
IsNamed id executing = Unit
IsNamed id (released m) = m.attempt_id ≡ id
IsNamed id (deleted m) = m.attempt_id ≡ id

-- The attempts that were seen are those with an answer or a task, and none has two.
pub record Kept (answers : List Message) (tasks : List Task) (seen : List String)
    (active : List String) : Type 0 where
  pub ledger :
      (id : String)
      → count_by (is_answer id) answers + count_by (is_task id) tasks ≡ one_if (has_key seen id)
  pub held : (id : String) → one_if (has_key active id) ≡ count_by (is_active id) tasks
  pub named : All (λ (t : Task). IsNamed t.id t.phase) tasks

count_by-le {ℓ} :
    {A : Type ℓ} (p q : A → Bool)
    → ((x : A) → p x ≡ true → q x ≡ true)
    → (xs : List A) → count_by p xs ≤ count_by q xs
count_by-le p q h [] = omega arith
count_by-le p q h (x ∷ xs) = ground (arith, h x, count_by-le p q h xs)

active-le :
    (id : String) (tasks : List Task) → count_by (is_active id) tasks ≤ count_by (is_task id) tasks
active-le id tasks = count_by-le (is_active id) (is_task id) (λ t h. ground arith) tasks

-- A new attempt that is refused.
pub Kept-refused :
    (answers : List Message) (tasks : List Task) (seen active : List String) (m : Message)
    → has_key seen m.attempt_id ≡ false
    → Kept answers tasks seen active
    → Kept (answers ++ (m ∷ [])) tasks (m.attempt_id ∷ seen) active
Kept-refused answers tasks seen active m new k = record {
  ledger = λ id. ground (
    arith,
    count_by-append (is_answer id) answers (m ∷ []),
    k.ledger id,
    str_eq_iff m.attempt_id id,
  );
  held = k.held;
  named = k.named;
}

-- A new attempt that is taken on.
pub Kept-taken :
    (answers : List Message) (tasks : List Task) (seen active : List String) (id : String) (i : ℕ)
    → has_key seen id ≡ false
    → Kept answers tasks seen active
    → Kept answers
        (tasks ++ (record { id = id; slot = i; phase = executing } ∷ []))
        (id ∷ seen)
        (id ∷ active)
Kept-taken answers tasks seen active id i new k =
    let t : Task = record { id = id; slot = i; phase = executing } in
    record {
      ledger = λ j.
          ground (arith, count_by-append (is_task j) tasks (t ∷ []), k.ledger j, str_eq_iff id j);
      held = λ j. ground (
        arith,
        count_by-append (is_active j) tasks (t ∷ []),
        k.ledger j,
        k.held j,
        active-le j tasks,
        str_eq_iff id j,
      );
      named = All-snoc (λ (t : Task). IsNamed t.id t.phase) tasks t k.named tt;
    }

-- The answer of a task is known; it is handed to the connection two steps later.
pub Kept-returned :
    (answers : List Message) (tasks : List Task) (seen active : List String) (k : ℕ) (m : Message)
    {t : Task}
    → get_elem? tasks k ≡ some t
    → t.phase ≡ executing
    → m.attempt_id ≡ t.id
    → Kept answers tasks seen active
    → Kept answers (modify tasks k λ (t : Task). record t { phase = released m }) seen active
Kept-returned answers tasks seen active k m {t} at runs name kept =
    let f : Task → Task = λ t. record t { phase = released m } in
    record {
      ledger = λ id. omega (arith, kept.ledger id, count_by-modify (is_task id) f tasks k at);
      held = λ id.
          let same : one_if (is_active id (f t)) ≡ one_if (is_active id t) =
            ground (arith, ap is_deleted runs) in
          omega (arith, kept.held id, count_by-modify (is_active id) f tasks k at);
      named =
          All-modify (λ (t : Task). IsNamed t.id t.phase) f tasks k kept.named
            (λ u e. name ∙ ap (λ (t : Task). t.id) (some-injective _ _ (sym at ∙ e)));
    }

has_key-filter :
    (id j : String) (ks : List String)
    → has_key (filter (λ k. not (str_eq k id)) ks) j ≡ (if str_eq id j then false else has_key ks j)
has_key-filter id j [] = ground arith
has_key-filter id j (k ∷ ks) =
    ground (arith, has_key-filter id j ks, str_eq_iff k id, str_eq_iff k j, str_eq_iff id j)

pub Kept-deleted :
    (answers : List Message) (tasks : List Task) (seen active : List String) (k : ℕ) (m : Message)
    {t : Task}
    → get_elem? tasks k ≡ some t
    → t.phase ≡ released m
    → Kept answers tasks seen active
    → Kept answers
        (modify tasks k λ (t : Task). record t { phase = deleted m })
        seen
        (filter (λ id. not (str_eq id t.id)) active)
Kept-deleted answers tasks seen active k m {t} at runs kept =
    let f : Task → Task = λ t. record t { phase = deleted m } in
    let name : IsNamed t.id (released m) =
      subst (IsNamed t.id) runs (All-get_elem? _ tasks k kept.named at) in
    record {
      ledger = λ id. omega (arith, kept.ledger id, count_by-modify (is_task id) f tasks k at);
      held = λ id. ground (
        arith,
        ap is_deleted runs,
        has_key-filter t.id id active,
        kept.held id,
        count_by-modify (is_active id) f tasks k at,
      );
      named =
          All-modify (λ (t : Task). IsNamed t.id t.phase) f tasks k kept.named
            (λ u e. name ∙ ap (λ (t : Task). t.id) (some-injective _ _ (sym at ∙ e)));
    }

pub Kept-answered :
    (answers : List Message) (tasks : List Task) (seen active : List String) (k : ℕ) (m : Message)
    {t : Task}
    → get_elem? tasks k ≡ some t
    → t.phase ≡ deleted m
    → Kept answers tasks seen active
    → Kept (answers ++ (m ∷ [])) (remove_at tasks k) seen active
Kept-answered answers tasks seen active k m {t} at runs kept =
    let name : IsNamed t.id (deleted m) =
      subst (IsNamed t.id) runs (All-get_elem? _ tasks k kept.named at) in
    record {
      ledger = λ id.
          let same : one_if (is_answer id m) ≡ one_if (is_task id t) =
            ap (λ n. one_if (str_eq n id)) name in
          omega (
            arith,
            kept.ledger id,
            count_by-append (is_answer id) answers (m ∷ []),
            count_by-remove_at (is_task id) tasks k at,
          );
      held = λ id.
          let gone : one_if (is_active id t) ≡ 0 = ground (arith, ap is_deleted runs) in
          omega (arith, kept.held id, count_by-remove_at (is_active id) tasks k at);
      named = All-remove_at (λ (t : Task). IsNamed t.id t.phase) tasks k kept.named;
    }
