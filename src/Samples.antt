-- ===== src/Samples.antt =====
-- Values to run the model at: amounts in millionths, and a calendar of twelve months of 31 days that
-- meets the laws of `IsCalendar`.
pub mod Codec
pub mod Hosts
pub mod Machine
use Prim.Native.Char.{code}
use relay_local.Prelude.{
  ℕ, ◌+◌, ◌-◌, ◌*◌, ◌/◌, ◌%◌, ◌≤◌, ◌≡◌, Bool, true, false, Option, none, some, List, [], ◌∷◌,
  String, arith, ltb, leb,
}
use relay_local.Prelude.Int.{
  ℤ, pos, negsuc, pos_part, neg_part, ◌+ℤ◌, ◌-ℤ◌, ◌*ℤ◌, ◌≤ℤ◌, int_laws, *ℤ_pos_parts, ltb_ℤ,
  ltb_ℤ_of_parts, parts_of_ltb_ℤ,
}
use relay_local.Number.{Number}
use relay_local.LocalTime.{LocalTime, IsCalendar}
use relay_local.Api.{HistoryEvent, Price, Prices}
use relay_local.Stats.Buckets.{floor_div}

abbrev pub digits : ℕ → String → ℕ
digits n String.[] = n
digits n (String.◌∷◌ c s) = digits (10 * n + (code c - b'0')) s

abbrev pub million : ℕ
million = 1000000

instance abbrev pub millionths : Number ℕ
millionths = record {
  of_ℕ = λ n. n * million;
  add = λ a b. a + b;
  sub = λ a b. a - b;
  mul = λ a b. a * b / million;
  div = λ a b. a * million / b;
  lt = ltb;
  le = leb;
  of_string = λ s. digits 0 s * million;
  is_finite = λ _. true;
}

abbrev pub day_ms : ℕ
day_ms = 86400000

abbrev pub floor_mod : ℤ → ℕ → ℕ
floor_mod (pos n) d = n % d
floor_mod (negsuc n) d = d - 1 - n % d

abbrev pub day_number : ℤ → ℤ
day_number t = floor_div t day_ms

abbrev pub start_of : ℤ → ℕ → ℤ → ℤ
start_of y m d = (y *ℤ pos 372 +ℤ pos (m * 31) +ℤ d -ℤ pos 1) *ℤ pos day_ms

abbrev pub plain : LocalTime
plain = record {
  parse = λ s. some (pos (digits 0 s));
  full_year = λ t. floor_div (day_number t) 372;
  month = λ t. floor_mod (day_number t) 372 / 31;
  date = λ t. floor_mod (day_number t) 372 % 31 + 1;
  hours = λ t. floor_mod t day_ms / 3600000;
  day_start = start_of;
  hour_start = λ y m d h. start_of y m (pos d) +ℤ pos (h * 3600000);
}

floor_parts_day :
    (t : ℤ)
    → pos_part (day_number t) * day_ms + floor_mod t day_ms + neg_part t
      ≡ pos_part t + neg_part (day_number t) * day_ms
unfolding floor_div
floor_parts_day (pos n) = omega arith
floor_parts_day (negsuc n) = omega arith

floor_parts_year :
    (t : ℤ)
    → pos_part (floor_div t 372) * 372 + floor_mod t 372 + neg_part t
      ≡ pos_part t + neg_part (floor_div t 372) * 372
unfolding floor_div
floor_parts_year (pos n) = omega arith
floor_parts_year (negsuc n) = omega arith

-- The number of the day that `start_of` begins.
abbrev start_day : ℤ → ℕ → ℤ → ℤ
start_day y m d = y *ℤ pos 372 +ℤ pos (m * 31) +ℤ d -ℤ pos 1

pub plain-IsCalendar : IsCalendar plain
plain-IsCalendar = record {
  day_mono = λ y m d e h.
      omega
        (int_laws, *ℤ_pos_parts (start_day y m d) day_ms, *ℤ_pos_parts (start_day y m e) day_ms);
  month_mono = λ y m n h. omega (
    int_laws,
    *ℤ_pos_parts (start_day y m (pos 1)) day_ms,
    *ℤ_pos_parts (start_day y n (pos 1)) day_ms,
  );
  hour_start_le = λ t.
      let d = day_number t in
      let y = floor_div d 372 in
      let r = floor_mod d 372 in
      omega (
        int_laws,
        floor_parts_day t,
        floor_parts_year d,
        *ℤ_pos_parts y 372,
        *ℤ_pos_parts (start_day y (r / 31) (pos (r % 31 + 1))) day_ms,
      );
  day_start_le = λ t.
      let d = day_number t in
      let y = floor_div d 372 in
      let r = floor_mod d 372 in
      omega (
        int_laws,
        floor_parts_day t,
        floor_parts_year d,
        *ℤ_pos_parts y 372,
        *ℤ_pos_parts (start_day y (r / 31) (pos (r % 31 + 1))) day_ms,
      );
  month_start_le = λ t.
      let d = day_number t in
      let y = floor_div d 372 in
      let r = floor_mod d 372 in
      omega (
        int_laws,
        floor_parts_day t,
        floor_parts_year d,
        *ℤ_pos_parts y 372,
        *ℤ_pos_parts (start_day y (r / 31) (pos 1)) day_ms,
      );
}

abbrev request : String → String → String → ℕ → ℕ → ℕ → HistoryEvent
request time model status duration input output = record {
  time = time;
  kind = "request";
  model = some model;
  status = some status;
  duration_ms = some duration;
  input_tokens = some input;
  output_tokens = some output;
  total_tokens = none;
  usage_reported = true;
  total_reported = false;
}

pub plain-strict :
    (y : ℤ) (m : ℕ) (d e : ℤ)
    → ltb_ℤ d e ≡ true
    → ltb_ℤ (plain.day_start y m d) (plain.day_start y m e) ≡ true
plain-strict y m d e h = ltb_ℤ_of_parts (plain.day_start y m d) (plain.day_start y m e) (
    omega (
      int_laws,
      parts_of_ltb_ℤ d e h,
      *ℤ_pos_parts (start_day y m d) day_ms,
      *ℤ_pos_parts (start_day y m e) day_ms,
    ))

-- Requests at 1, 13, 26 and 100 hours from the start, the last one failed.
abbrev pub history : List HistoryEvent
history =
    request "3600000" "ollama/a" "completed" 2000 100 40
    ∷ request "46800000" "ollama/b" "completed" 4000 300 20
    ∷ request "93600000" "ollama/a" "completed" 1000 50 10
    ∷ request "360000000" "ollama/a" "failed" 500 7 0
    ∷ []

abbrev price : String → String → Price
price input output = record { input_per_million = some input; output_per_million = some output }

abbrev pub prices : Prices
prices = ("ollama/a", price "3" "15") ∷ ("ollama/b", price " " "2") ∷ []

-- 100 hours from the start: the fifth day.
abbrev pub fifth_day : ℤ
fifth_day = pos 360000000
