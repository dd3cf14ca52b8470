-- ===== src/TokenBuckets/Bars.antt =====
-- The bars that frontend/src/views/TokenBuckets.tsx draws: the parts of each, its label, and the
-- message in place of an empty chart.
pub mod Parts
use mathlib.Core.Option
use relay_local.Prelude.{
  ℕ, ◌+◌, ◌%◌, max, Bool, true, false, ◌||◌, Option, none, some, List, [], ◌∷◌, String, length,
  get_elem?, if◌then◌else◌, ◌==◌, str_eq,
}
use relay_local.Api.{or_zero}
use relay_local.Api.Server.{LiveUsage}
use relay_local.Stats.Series.{Series}
use relay_local.Stats.Labels.{BucketSize, quarter, hour, day, month}
use relay_local.TokenBuckets.{live_tokens, bar_values}

-- `Math.max(...values, 0)`, where none is NaN.
unfoldable pub max_value : List (Option ℕ) → Option ℕ
max_value [] = some 0
max_value (none ∷ vs) = none
max_value (some v ∷ vs) = Option.map (max v) (max_value vs)

abbrev pub label_every : BucketSize → ℕ
label_every quarter = 2
label_every hour = 3
label_every day = 2
label_every month = 1

-- An empty label is not drawn.
abbrev pub drawn : Option String → Option String
drawn none = none
drawn (some label) = if str_eq label "" then none else some label

-- A bar: its height comes from `value`, its parts from the three counts.
pub record Bar : Type 0 where
  pub value : Option ℕ
  pub input : ℕ
  pub output : ℕ
  pub live : ℕ
  pub label : Option String

abbrev pub tail {ℓ} : {A : Type ℓ} → List A → List A
tail [] = []
tail (x ∷ xs) = xs

-- The bars from the index `i` on, with what is left of each array.
unfoldable pub bars_from :
    BucketSize → ℕ → ℕ → ℕ → List (Option ℕ) → List ℕ → List ℕ → List String → List Bar
bars_from size live count i [] inputs outputs labels = []
bars_from size live count i (value ∷ values) inputs outputs labels =
    let show_label = (i % label_every size == 0) || (i + 1 == count) in
    record {
      value = value;
      input = or_zero (get_elem? inputs 0);
      output = or_zero (get_elem? outputs 0);
      live = if i + 1 == count then live else 0;
      label = if show_label then drawn (get_elem? labels 0) else none;
    }
    ∷ bars_from size live count (i + 1) values (tail inputs) (tail outputs) (tail labels)

-- The bars of a chart, with the labels of its buckets.
unfoldable pub bars :
    {F : Type 0} → BucketSize → List String → Series F → Option LiveUsage → List Bar
bars size labels chart live =
    let values = bar_values chart live in
    bars_from size (live_tokens live) (length values) 0 values chart.input_tokens
      chart.output_tokens labels

abbrev pub is_zero : Option ℕ → Bool
is_zero none = false
is_zero (some n) = n == 0

-- `max === 0`: the message is shown.
unfoldable pub is_empty : {F : Type 0} → Series F → Option LiveUsage → Bool
is_empty chart live = is_zero (max_value (bar_values chart live))
