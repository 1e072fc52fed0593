-- ===== src/Transport/Response/Codes.antt =====
-- The table of codes (transport/response.go).
use aliyun_ahas.Common.{
  Text, lit, text_eq, text_eq_iff, List, [], ◌∷◌, Bool, true, false, not, ◌&&◌, ◌==◌, ◌≡◌, ◌↔◌, inl,
  inr, Bool-cases, refl, arith, if◌then◌else◌,
}
use aliyun_ahas.Transport.Response.{CodeType, codes, find_code, code_of, same_code, return_code}

abbrev pub any : {A : Type 0} → (A → Bool) → List A → Bool
any p [] = false
any p (x ∷ xs) = if p x then true else any p xs

abbrev pub is_name : Text → Bool
is_name name = any (λ e. text_eq e.0 name) codes

-- A name of the table.
abbrev pub IsCode : Text → Type 0
IsCode name = is_name name ≡ true

abbrev every : {A : Type 0} → (A → Bool) → List A → Bool
every p [] = true
every p (x ∷ xs) = p x && every p xs

-- What every entry satisfies, the entry of a name of the table satisfies.
find_code-every :
    (p : Text × CodeType → Bool) (es : List (Text × CodeType)) (name : Text)
    → every p es ≡ true
    → any (λ e. text_eq e.0 name) es ≡ true
    → p (name, find_code es name) ≡ true
unfolding find_code
find_code-every p [] name h found = ground arith
find_code-every p ((n, c) ∷ es) name h found = elim (Bool-cases (text_eq n name)) [
  | inl here ↦ let same = (text_eq_iff n name).0 here in rw (here, ← same) (ground arith)
  | inr away ↦ rw away (find_code-every p es name (ground arith) (rw away at found))
]

-- The entry tells by its number and text whether the name is OK.
tells_ok : Text × CodeType → Bool
tells_ok e =
    if same_code e.1 (code_of (lit "OK"))
    then text_eq e.0 (lit "OK")
    else not (text_eq e.0 (lit "OK"))

codes_tell_ok : every tells_ok codes ≡ true
unfolding tells_ok same_code code_of find_code text_eq
codes_tell_ok = refl

code_of-tells_ok : (name : Text) → IsCode name → tells_ok (name, code_of name) ≡ true
unfolding code_of
code_of-tells_ok name found = find_code-every tells_ok codes name codes_tell_ok found

-- `Return` of a code of the table is a success exactly for OK.
pub return_succeeds_iff :
    (name : Text) → IsCode name → ((return_code (code_of name)).success ≡ true) ↔ (name ≡ lit "OK")
unfolding return_code tells_ok
return_succeeds_iff name found =
    let told = code_of-tells_ok name found in
    (
      λ e. (text_eq_iff name (lit "OK")).0 (ground arith),
      λ e. ground (arith, (text_eq_iff name (lit "OK")).1 e),
    )

differ : Text × CodeType → Text × CodeType → Bool
differ e f = if e.1.code == f.1.code then text_eq e.0 f.0 else true

codes-differ : every (λ e. every (differ e) codes) codes ≡ true
unfolding differ text_eq
codes-differ = refl

-- No two names of the table have one number, so a number in a response tells the name.
pub codes_distinct :
    (a b : Text) → IsCode a → IsCode b → (code_of a).code ≡ (code_of b).code → a ≡ b
unfolding code_of differ
codes_distinct a b first second e =
    let row = find_code-every (λ e. every (differ e) codes) codes a codes-differ first in
    let cell = find_code-every (differ (a, find_code codes a)) codes b row second in
    (text_eq_iff a b).0 (ground arith)
