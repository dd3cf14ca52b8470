-- ===== src/Samples/Codec.antt =====
-- A notation for plain values that is read back from right to left, as an instance of `Json`.
use Prim.Native.Char.{Char, code}
use relay_local.Prelude.{
  ◌≡◌, refl, ap, ◌∙◌, Bool, true, false, Option, some, List, [], ◌∷◌, String, if◌then◌else◌, ◌==◌,
  str_eq, str_eq_iff, cons≢nil, arith,
}
use relay_local.Js.{
  Value, Values, undefined, null, bool, number, text, array, object, nil, cons, Json, IsJson,
  IsPlain, ArePlain,
}

-- Writing, in front of a rest.
write_text : String → String → String
write_text String.[] rest = String.◌∷◌ "." rest
write_text (String.◌∷◌ c s) rest = String.◌∷◌ "-" (String.◌∷◌ c (write_text s rest))

mutual
  pub write_value : Value → String → String
  write_value undefined rest = rest
  write_value null rest = String.◌∷◌ "n" rest
  write_value (bool true) rest = String.◌∷◌ "t" rest
  write_value (bool false) rest = String.◌∷◌ "f" rest
  write_value (number n) rest = rest
  write_value (text s) rest = String.◌∷◌ "+" (write_text s rest)
  write_value (array vs) rest = String.◌∷◌ "[" (write_values vs (String.◌∷◌ "]" rest))
  write_value object rest = rest

  write_values : Values → String → String
  write_values nil rest = rest
  write_values (cons v vs) rest = write_value v (write_values vs rest)

-- The text and the list that are being read, and the lists around it.
record Reading : Type 0 where
  letters : String
  items : Values
  outer : List Values

push : Value → Reading → Reading
push v r = record r { items = cons v r.items }

open_list : Reading → Reading
open_list r = record r { items = nil; outer = r.items ∷ r.outer }

close_list : Reading → Reading
close_list r = elim r.outer [
  | [] ↦ r
  | outside ∷ outer ↦ record r { items = cons (array r.items) outside; outer = outer }
]

mark : Char → Reading → Reading
unfolding push open_list close_list
mark c r =
    if code c == b'n'
    then push null r
    else if code c == b't'
    then push (bool true) r
    else if code c == b'f'
    then push (bool false) r
    else if code c == b'.'
    then record r { letters = "" }
    else if code c == b'+'
    then push (text r.letters) r
    else if code c == b']'
    then open_list r
    else if code c == b'['
    then close_list r
    else r

-- The flag says that the character is a letter, behind its mark.
read_on : Bool → String → Reading
unfolding mark
read_on letter String.[] = record { letters = ""; items = nil; outer = [] }
read_on true (String.◌∷◌ c s) =
    let r = read_on false s in record r { letters = String.◌∷◌ c r.letters }
read_on false (String.◌∷◌ c s) =
    let r = read_on (code c == b'-') s in if code c == b'-' then r else mark c r

abbrev first : Values → Value
first nil = null
first (cons v vs) = v

unfoldable pub read_text : String → Option Value
unfolding read_on
read_text s = some (first (read_on false s).items)

abbrev append : Values → Values → Values
append nil ws = ws
append (cons v vs) ws = cons v (append vs ws)

append-nil : (vs : Values) → append vs nil ≡ vs
append-nil nil = refl
append-nil (cons v vs) = ap (cons v) (append-nil vs)

letters-read_on :
    (s rest : String)
    → let r = read_on false (write_text s rest) in
      (r.letters ≡ s)
      × (r.items ≡ (read_on false rest).items)
      × (r.outer ≡ (read_on false rest).outer)
unfolding read_on write_text
letters-read_on String.[] rest = (refl, refl, refl)
letters-read_on (String.◌∷◌ c s) rest =
    let (l, i, o) = letters-read_on s rest in (ap (String.◌∷◌ c) l, i, o)

close_list_lem :
    (r : Reading) {vs outside : Values} {outer : List Values}
    → r.items ≡ vs
    → r.outer ≡ outside ∷ outer
    → ((close_list r).items ≡ cons (array vs) outside) × ((close_list r).outer ≡ outer)
unfolding close_list
close_list_lem r i o = rw (o, i) (refl, refl)

mutual
  unfolding read_on write_value write_values mark push open_list IsPlain ArePlain

  read-value :
      (v : Value) (rest : String)
      → IsPlain v
      → let r = read_on false (write_value v rest) in
        (r.items ≡ cons v (read_on false rest).items) × (r.outer ≡ (read_on false rest).outer)
  read-value undefined rest h = absurd h
  read-value null rest h = (refl, refl)
  read-value (bool true) rest h = (refl, refl)
  read-value (bool false) rest h = (refl, refl)
  read-value (number n) rest h = absurd h
  read-value (text s) rest h = let (l, i, o) = letters-read_on s rest in (rw (l, i), o)
  read-value (array vs) rest h =
      let inner = String.◌∷◌ "]" rest in
      let (i, o) = read-values vs inner h in
      close_list_lem (read_on false (write_values vs inner)) (i ∙ append-nil vs) o
  read-value object rest h = absurd h

  read-values :
      (vs : Values) (rest : String)
      → ArePlain vs
      → let r = read_on false (write_values vs rest) in
        (r.items ≡ append vs (read_on false rest).items) × (r.outer ≡ (read_on false rest).outer)
  read-values nil rest h = (refl, refl)
  read-values (cons v vs) rest h =
      let (i, o) = read-value v (write_values vs rest) h.0 in
      let (j, p) = read-values vs rest h.1 in (i ∙ ap (cons v) j, o ∙ p)

cons_nonempty : (c : Char) (s : String) → str_eq (String.◌∷◌ c s) "" ≡ false
cons_nonempty c s =
    ground (arith, str_eq_iff (String.◌∷◌ c s) "", λ (e : String.◌∷◌ c s ≡ ""). cons≢nil e)

abbrev pub codec : Json
codec = record { parse = read_text; stringify = λ v. write_value v "" }

codec_nonempty : (v : Value) → IsPlain v → str_eq (write_value v "") "" ≡ false
unfolding write_value IsPlain
codec_nonempty undefined h = absurd h
codec_nonempty null h = cons_nonempty "n" ""
codec_nonempty (bool true) h = cons_nonempty "t" ""
codec_nonempty (bool false) h = cons_nonempty "f" ""
codec_nonempty (number n) h = absurd h
codec_nonempty (text s) h = cons_nonempty "+" (write_text s "")
codec_nonempty (array vs) h = cons_nonempty "[" (write_values vs (String.◌∷◌ "]" ""))
codec_nonempty object h = absurd h

pub codec-IsJson : IsJson codec
unfolding read_text
codec-IsJson = record {
  parse-stringify = λ v h. ap (λ vs. some (first vs)) (read-value v "" h).0;
  stringify_nonempty = codec_nonempty;
}
