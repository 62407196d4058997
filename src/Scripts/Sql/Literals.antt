-- ===== src/Scripts/Sql/Literals.antt =====
-- A text that the script quotes is read back by the rules of a SQL string constant.
use Prim.Native.Char.{Char}
use Prim.Native.String.{◌++◌}
use text.Mathlib.TextLemmas.{cons-append, append_assoc, nil-append}
use storepulse.Prelude.{
  ◌≡◌, Bool, true, false, String, Option, none, some, inl, inr, refl, ap, ◌∙◌, Bool-cases,
  if◌then◌else◌,
}
use storepulse.Scripts.Sql.{is_quote, double_quotes, sql_literal}

abbrev push : Char → Option (String × String) → Option (String × String)
push c none = none
push c (some (text, rest)) = some (String.◌∷◌ c text, rest)

-- PostgreSQL's string constant after its first quote: two quotes stand for one, and one ends it.
unfoldable pub read_body : String → Option (String × String)
read_body String.[] = none
read_body (String.◌∷◌ c String.[]) = if is_quote c then some (String.[], String.[]) else none
read_body (String.◌∷◌ c (String.◌∷◌ d s)) =
    let pair = read_body s in
    let single = read_body (String.◌∷◌ d s) in
    if is_quote c
    then (if is_quote d then push c pair else some (String.[], String.◌∷◌ d s))
    else push c single

-- A string constant and what follows it.
unfoldable pub read_literal : String → Option (String × String)
unfolding read_body
read_literal String.[] = none
read_literal (String.◌∷◌ c s) = if is_quote c then read_body s else none

abbrev pub starts_with_quote : String → Bool
starts_with_quote String.[] = false
starts_with_quote (String.◌∷◌ c s) = is_quote c

last-quote :
    (c d : Char) (s : String)
    → is_quote c ≡ true
    → is_quote d ≡ false
    → read_body (String.◌∷◌ c (String.◌∷◌ d s)) ≡ some (String.[], String.◌∷◌ d s)
unfolding read_body
last-quote c d s q h = rw (q, h) refl

open_quote : (s : String) → "'" ++ s ≡ String.◌∷◌ "'" s
open_quote s = cons-append "'" "" s ∙ ap (String.◌∷◌ "'") (nil-append s)

read_end :
    (rest : String)
    → starts_with_quote rest ≡ false
    → read_body ("'" ++ rest) ≡ some (String.[], rest)
unfolding read_body
read_end String.[] h = refl
read_end (String.◌∷◌ c s) h = rw (open_quote (String.◌∷◌ c s)) (last-quote "'" c s refl h)

doubled-quote :
    (c : Char) (s : String)
    → is_quote c ≡ true
    → read_body (String.◌∷◌ c (String.◌∷◌ c s)) ≡ push c (read_body s)
unfolding read_body
doubled-quote c s h = rw h refl

plain :
    (c : Char) (s : String) → is_quote c ≡ false → read_body (String.◌∷◌ c s) ≡ push c (read_body s)
unfolding read_body
plain c String.[] h = rw h refl
plain c (String.◌∷◌ d s) h = rw h refl

read_back :
    (value rest : String)
    → starts_with_quote rest ≡ false
    → read_body (double_quotes value ++ ("'" ++ rest)) ≡ some (value, rest)
unfolding double_quotes
read_back String.[] rest h = simp nil-append (read_end rest h)
read_back (String.◌∷◌ c s) rest h =
    let ih = read_back s rest h in
    elim (Bool-cases (is_quote c)) [
      | inl q ↦
          rw (q, cons-append, cons-append, doubled-quote c (double_quotes s ++ ("'" ++ rest)) q, ih)
            refl
      | inr q ↦ rw (q, cons-append, plain c (double_quotes s ++ ("'" ++ rest)) q, ih) refl
    ]

-- Whatever text is quoted, PostgreSQL reads back that text and stops where the quoting ends.
pub read_literal-sql_literal :
    (value rest : String)
    → starts_with_quote rest ≡ false
    → read_literal (sql_literal value ++ rest) ≡ some (value, rest)
unfolding read_literal sql_literal
read_literal-sql_literal value rest h =
    rw
      (
        append_assoc "'" (double_quotes value ++ "'") rest,
        append_assoc (double_quotes value) "'" rest,
        open_quote (double_quotes value ++ ("'" ++ rest)),
      )
      (read_back value rest h)
