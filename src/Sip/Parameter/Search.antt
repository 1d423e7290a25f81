-- ===== src/Sip/Parameter/Search.antt =====
-- What a search finds behind `sipster_sip_header_append_parameter`.
use sipster.Base.{
  true, [], ◌∷◌, List, some, ◌≡◌, inl, inr, refl, arith, All, Bytes, equal, equal_iff, starts_with,
  Bool-cases,
}
use sipster.Sip.Parameter.{Parameter, parameter_get, append_after, append_parameter}

starts_with_refl : (s : Bytes) → starts_with s s ≡ true
starts_with_refl [] = refl
starts_with_refl (c ∷ cs) = ground (arith, starts_with_refl cs)

-- Only a parameter of that very name has a name that begins with it.
abbrev pub IsApart : Bytes → List Parameter → Type 0
IsApart name = All (λ (q : Parameter). starts_with name q.name ≡ true → q.name ≡ name)

parameter_get-append_after :
    (ps : List Parameter) (p : Parameter)
    → IsApart p.name ps
    → parameter_get p.name (append_after ps p) ≡ some p
unfolding parameter_get append_after
parameter_get-append_after [] p h = rw (starts_with_refl p.name) refl
parameter_get-append_after (q ∷ ps) p h = elim (Bool-cases (equal q.name p.name)) [
  | inl same ↦ rw (same, starts_with_refl p.name) refl
  | inr other ↦ elim (Bool-cases (starts_with p.name q.name)) [
    | inl begins ↦ absurd (cc ((equal_iff q.name p.name).1 (h.0 begins)))
    | inr apart ↦ rw (other, apart) (parameter_get-append_after ps p h.1)
  ]
]

-- A parameter that is appended, or takes the place of one of its name, is found under its name, if no
-- other name begins with it.
pub parameter_get-append_parameter :
    (ps : List Parameter) (p : Parameter)
    → IsApart p.name ps
    → parameter_get p.name (append_parameter ps p) ≡ some p
unfolding append_parameter append_after
parameter_get-append_parameter [] p h = parameter_get-append_after [] p h
parameter_get-append_parameter (q ∷ ps) p h = parameter_get-append_after (q ∷ ps) p h
