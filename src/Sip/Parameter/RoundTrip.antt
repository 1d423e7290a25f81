-- ===== src/Sip/Parameter/RoundTrip.antt =====
-- `parse_header_params` ends on every input, and reads back what the print loop writes.
use sipster.Base.{
  append_assoc, refl, length-append, append-nil, sym, ap, ◌∙◌, drop, take_all, All, false, ◌≤◌,
  ◌++◌, ℕ, zero, suc, ◌<◌, List, [], ◌∷◌, ◌≡◌, inl, inr, arith, ok, Bytes, equal, equal_iff, length,
  Bool-cases,
}
use sipster.Text.{strncpy_bounded, Position, next_token}
use sipster.Text.Token.Split.{
  length-remaining-le, before-IsFree_end, before, before-IsFree, next_token-split, after, IsFree,
  remaining, next_token-decreases,
}
use sipster.Sip.Parameter.{
  at, parse_header_params, parameter_create, parse_parameter, print_params, Parameter, params_loop,
}

pub params_loop_total :
    (fuel : ℕ) (input : Bytes) (pos : Position)
    → length (remaining input pos) < fuel
    → (ps : List Parameter) × (params_loop fuel input pos ≡ ok ps)
unfolding params_loop
params_loop_total zero input pos h = absurd (omega arith)
params_loop_total (suc fuel) input pos h =
    elim (Bool-cases (equal (next_token input (b';' ∷ []) pos).0 [])) [
      | inl done ↦ ([], rw done)
      | inr more ↦
          let shorter =
            next_token-decreases input (b';' ∷ []) pos (λ e. cc ((equal_iff _ []).1 e)) in
          let (ps, e) =
            params_loop_total fuel input (next_token input (b';' ∷ []) pos).1 (omega arith) in
          (parse_parameter (next_token input (b';' ∷ []) pos).0 ∷ ps, rw (more, e))
    ]

-- A parameter that survives its print: no separator in it, and both parts within their arrays.
pub record IsPrintable (p : Parameter) : Type 0 where
  pub name_free : IsFree (b';' ∷ b'=' ∷ []) p.name
  pub value_free : IsFree (b';' ∷ b'=' ∷ []) p.value
  pub name_fits : length p.name ≤ 19
  pub value_fits : length p.value ≤ 29

IsFree-first : (s : Bytes) → IsFree (b';' ∷ b'=' ∷ []) s → IsFree (b';' ∷ []) s
IsFree-first [] f = tt
IsFree-first (c ∷ s) f = (ground arith, IsFree-first s f.1)

IsFree-second : (s : Bytes) → IsFree (b';' ∷ b'=' ∷ []) s → IsFree (b'=' ∷ []) s
IsFree-second [] f = tt
IsFree-second (c ∷ s) f = (ground arith, IsFree-second s f.1)

pub IsFree-append : (d s t : Bytes) → IsFree d s → IsFree d t → IsFree d (s ++ t)
IsFree-append d [] t f g = g
IsFree-append d (c ∷ s) t f g = (f.0, IsFree-append d s t f.1 g)

abbrev pair_text : Parameter → Bytes
pair_text p = p.name ++ b'=' ∷ p.value

-- The printed parameters without the first semicolon.
abbrev params_text : List Parameter → Bytes
params_text [] = []
params_text (p ∷ ps) = pair_text p ++ print_params ps

parameter_create-fits : (p : Parameter) → IsPrintable p → parameter_create p.name p.value ≡ p
unfolding parameter_create strncpy_bounded
parameter_create-fits p h = rw (take_all 19 p.name h.name_fits, take_all 29 p.value h.value_fits)

parse_parameter-pair_text : (p : Parameter) → IsPrintable p → parse_parameter (pair_text p) ≡ p
unfolding parse_parameter
parse_parameter-pair_text p h =
    let first = next_token-split (pair_text p) (b'=' ∷ []) (at 0) in
    let cut =
      before-IsFree (b'=' ∷ []) p.name p.value b'=' (IsFree-second p.name h.name_free) refl in
    let pos = (next_token (pair_text p) (b'=' ∷ []) (at 0)).1 in
    let second = next_token-split (pair_text p) (b'=' ∷ []) pos in
    let left : remaining (pair_text p) pos ≡ p.value = first.1 ∙ ap (drop 1) cut.1 in
    let whole = before-IsFree_end (b'=' ∷ []) p.value (IsFree-second p.value h.value_free) in
    rw (first.0, cut.0, second.0, left, whole.0) (parameter_create-fits p h)

print_params-cut :
    (t : Bytes) (ps : List Parameter)
    → IsFree (b';' ∷ []) t
    → (before (b';' ∷ []) (t ++ print_params ps) ≡ t)
      × (drop 1 (after (b';' ∷ []) (t ++ print_params ps)) ≡ params_text ps)
unfolding print_params
print_params-cut t [] f =
    let cut = before-IsFree_end (b';' ∷ []) t f in rw append-nil (cut.0, ap (drop 1) cut.1)
print_params-cut t (p ∷ ps) f =
    let cut = before-IsFree (b';' ∷ []) t _ b';' f refl in
    (cut.0, ap (drop 1) cut.1 ∙ sym (append_assoc p.name (b'=' ∷ p.value) (print_params ps)))

not_empty : (p : Parameter) → equal (pair_text p) [] ≡ false
not_empty p = cons-false p.name
  where
    cons-false : (s : Bytes) → equal (s ++ b'=' ∷ p.value) [] ≡ false
    cons-false [] = refl
    cons-false (c ∷ s) = refl

pair_text-IsFree : (p : Parameter) → IsPrintable p → IsFree (b';' ∷ []) (pair_text p)
pair_text-IsFree p h =
    IsFree-append (b';' ∷ []) p.name (b'=' ∷ p.value) (IsFree-first p.name h.name_free)
      (refl, IsFree-first p.value h.value_free)

params_loop-params_text :
    (ps : List Parameter) (fuel : ℕ) (input : Bytes) (pos : Position)
    → All IsPrintable ps
    → remaining input pos ≡ params_text ps
    → length (params_text ps) < fuel
    → params_loop fuel input pos ≡ ok ps
unfolding params_loop
params_loop-params_text ps zero input pos h e lt = absurd (omega arith)
params_loop-params_text [] (suc fuel) input pos h e lt =
    let s = next_token-split input (b';' ∷ []) pos in
    let cut = before-IsFree_end (b';' ∷ []) [] tt in rw (s.0, e, cut.0)
params_loop-params_text (p ∷ ps) (suc fuel) input pos h e lt =
    let s = next_token-split input (b';' ∷ []) pos in
    let cut = print_params-cut (pair_text p) ps (pair_text-IsFree p h.0) in
    let token : (next_token input (b';' ∷ []) pos).0 ≡ pair_text p = s.0 ∙ rw e cut.0 in
    let left : remaining input (next_token input (b';' ∷ []) pos).1 ≡ params_text ps =
      s.1 ∙ rw e cut.1 in
    let shorter =
      next_token-decreases input (b';' ∷ []) pos
        (λ n. cc (not_empty p, (equal_iff (pair_text p) []).1 (sym token ∙ n))) in
    let rest =
      params_loop-params_text ps fuel input (next_token input (b';' ∷ []) pos).1 h.1 left
        (omega (arith, ap length left, ap length e)) in
    rw (token, not_empty p, rest, parse_parameter-pair_text p h.0)

length-params_text : (ps : List Parameter) → length (params_text ps) ≤ length (print_params ps)
unfolding print_params
length-params_text [] = omega arith
length-params_text (p ∷ ps) = omega (
  arith,
  length-append (pair_text p) (print_params ps),
  length-append p.name (b'=' ∷ p.value),
  length-append p.name (b'=' ∷ (p.value ++ print_params ps)),
  length-append p.value (print_params ps),
)

-- The same from any cursor behind which that text stands.
pub parse_header_params-remaining :
    (input t : Bytes) (ps : List Parameter) (pos : Position)
    → remaining input pos ≡ t ++ print_params ps
    → IsFree (b';' ∷ []) t
    → All IsPrintable ps
    → ((next_token input (b';' ∷ []) pos).0 ≡ t)
      × (parse_header_params input (next_token input (b';' ∷ []) pos).1 ≡ ok ps)
unfolding parse_header_params
parse_header_params-remaining input t ps pos e f h =
    let s = next_token-split input (b';' ∷ []) pos in
    let cut = print_params-cut t ps f in
    (
      s.0 ∙ rw e cut.0,
      params_loop-params_text ps _ input _ h (s.1 ∙ rw e cut.1) (
          omega (
            arith,
            ap length e,
            length-remaining-le input pos,
            length-append t (print_params ps),
            length-params_text ps,
          )),
    )

-- A text with printed parameters behind it is taken apart again: the text is the first token, and
-- the rest are the same parameters, names and values.
pub parse_header_params-print_params :
    (t : Bytes) (ps : List Parameter)
    → IsFree (b';' ∷ []) t
    → All IsPrintable ps
    → let input = t ++ print_params ps in
      ((next_token input (b';' ∷ []) (at 0)).0 ≡ t)
      × (parse_header_params input (next_token input (b';' ∷ []) (at 0)).1 ≡ ok ps)
parse_header_params-print_params t ps f h =
    parse_header_params-remaining (t ++ print_params ps) t ps (at 0) refl f h

-- `parse_header_params` gives a list from every cursor.
pub parse_header_params_total :
    (input : Bytes) (pos : Position)
    → (ps : List Parameter) × (parse_header_params input pos ≡ ok ps)
unfolding parse_header_params
parse_header_params_total input pos =
    params_loop_total (suc (length input)) input pos (omega (arith, length-remaining-le input pos))
