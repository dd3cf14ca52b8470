-- ===== src/Config/Urls.antt =====
-- What internal/config/config.go uses of Go's packages: identifiers and line ends are tested here;
-- `url.Parse` and `net.SplitHostPort` are operations.
use Prim.Native.Char.{Char, code}
use relay_local.Prelude.{
  ℕ, ◌≡◌, ◌≢◌, refl, Bool, true, false, ◌&&◌, ◌||◌, Option, String, if◌then◌else◌, leb, ◌==◌, inl,
  inr, Bool-cases, arith,
}
use Prim.Native.String.{len}

abbrev is_word : ℕ → Bool
is_word c =
    (leb b'a' c && leb c b'z')
    || (leb b'A' c && leb c b'Z')
    || (leb b'0' c && leb c b'9')
    || c == b'_'
    || c == b'-'

abbrev are_words : String → Bool
are_words String.[] = true
are_words (String.◌∷◌ c s) = is_word (code c) && are_words s

-- `^[a-zA-Z0-9_-]{1,64}$`
unfoldable pub is_identifier : String → Bool
is_identifier s = are_words s && leb 1 (len s) && leb (len s) 64

-- `strings.ContainsAny(s, "\r\n")`
unfoldable pub has_break : String → Bool
has_break String.[] = false
has_break (String.◌∷◌ c s) = code c == 13 || code c == 10 || has_break s

abbrev drop_slash : Char → String → String
drop_slash c String.[] = if code c == b'/' then String.[] else String.◌∷◌ c String.[]
drop_slash c (String.◌∷◌ d s) = String.◌∷◌ c (String.◌∷◌ d s)

-- `strings.TrimRight(s, "/")`
unfoldable pub trim_right : String → String
trim_right String.[] = String.[]
trim_right (String.◌∷◌ c s) = drop_slash c (trim_right s)

-- The parts of a URL; `is_loopback` is `LoopbackName(u.Hostname())`.
pub record Url : Type 0 where
  pub scheme : String
  pub host : String
  pub has_user : Bool
  pub path : String
  pub raw_query : String
  pub fragment : String
  pub is_loopback : Bool

-- `url.Parse`; the host of `net.SplitHostPort`, with whether it is a name of the loopback.
pub record Net : Type 0 where
  pub parse : String → Option Url
  pub split : String → Option Bool

drop_slash_idem :
    (c : Char) (s : String) → trim_right s ≡ s → trim_right (drop_slash c s) ≡ drop_slash c s
unfolding trim_right
drop_slash_idem c String.[] h = elim (Bool-cases (code c == b'/')) [
  | inl slash ↦ rw slash refl
  | inr other ↦ rw other (rw other refl)
]
drop_slash_idem c (String.◌∷◌ d s) h = rw h refl

pub trim_right_idem : (s : String) → trim_right (trim_right s) ≡ trim_right s
unfolding trim_right
trim_right_idem String.[] = refl
trim_right_idem (String.◌∷◌ c s) = drop_slash_idem c (trim_right s) (trim_right_idem s)

pub is_identifier_nonempty : (s : String) → is_identifier s ≡ true → s ≢ ""
unfolding is_identifier
is_identifier_nonempty s h e = ground (arith, rw e at h)
