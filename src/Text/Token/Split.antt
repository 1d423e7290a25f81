-- ===== src/Text/Token/Split.antt =====
-- `nextToken` without cursors: what a token call leaves of the input, as a function of what was left.
use sipster.Base.{
  ◌≤◌, All, ◌≢◌, ◌<◌, ◌++◌, true, false, length-drop, ℕ, ◌+◌, [], ◌∷◌, ◌≡◌, inl, inr, refl, sym, ap,
  ◌∙◌, Option, none, some, arith, leb, if◌then◌else◌, length, take, drop, Bytes, contains,
  Bool-cases, drop_all, drop-drop, leb→le, drop-nil,
}
use sipster.Text.Token.{Position, at, npos, index_of_any, token_from, next_token, get_rest}

-- The input from the cursor on.
abbrev pub remaining : Bytes → Position → Bytes
remaining input npos = []
remaining input (at pos) = drop pos input

-- The bytes in front of the first delimiter, and those from it on.
pub before : Bytes → Bytes → Bytes
before delimiter [] = []
before delimiter (c ∷ cs) = if contains delimiter c then [] else c ∷ before delimiter cs

pub after : Bytes → Bytes → Bytes
after delimiter [] = []
after delimiter (c ∷ cs) = if contains delimiter c then c ∷ cs else after delimiter cs

-- What one token call makes of the input that is left.
abbrev pub split : Bytes → Bytes → Bytes × Bytes
split delimiter s = (before delimiter s, drop (length delimiter) (after delimiter s))

abbrev IndexSplits : Bytes → Bytes → Option ℕ → Type 0
IndexSplits delimiter s none = (before delimiter s ≡ s) × (after delimiter s ≡ [])
IndexSplits delimiter s (some i) = (take i s ≡ before delimiter s) × (drop i s ≡ after delimiter s)

index_of_any-IndexSplits :
    (delimiter s : Bytes) → IndexSplits delimiter s (index_of_any delimiter s)
unfolding index_of_any before after
index_of_any-IndexSplits delimiter [] = (refl, refl)
index_of_any-IndexSplits delimiter (c ∷ cs) = ground (arith, index_of_any-IndexSplits delimiter cs)

abbrev Splits : Bytes → Bytes → Bytes → Bytes × Position → Type 0
Splits input delimiter s r =
    (r.0 ≡ before delimiter s) × (remaining input r.1 ≡ drop (length delimiter) (after delimiter s))

token_from-Splits :
    (input delimiter : Bytes) (pos : ℕ) (o : Option ℕ)
    → o ≡ index_of_any delimiter (drop pos input)
    → IndexSplits delimiter (drop pos input) o
    → Splits input delimiter (drop pos input) (token_from input delimiter pos)
unfolding token_from
token_from-Splits input delimiter pos none e (b, a) =
    rw (← e, token_from) (sym b, rw a (sym (drop-nil (length delimiter))))
token_from-Splits input delimiter pos (some i) e (b, a) =
    rw (← e, token_from)
      (
        b,
        rw (← a) (
            sym (drop-drop (pos + i) (length delimiter) input)
            ∙ ap (drop (length delimiter)) (sym (drop-drop pos i input))),
      )

-- A token call is `split` on the remaining input, wherever the cursor stands.
pub next_token-split :
    (input delimiter : Bytes) (p : Position)
    → ((next_token input delimiter p).0 ≡ before delimiter (remaining input p))
      × (remaining input (next_token input delimiter p).1
          ≡ drop (length delimiter) (after delimiter (remaining input p)))
unfolding next_token before after
next_token-split input delimiter npos = (refl, sym (drop-nil (length delimiter)))
next_token-split input delimiter (at pos) = elim (Bool-cases (leb (length input) pos)) [
  | inl past ↦
      let e : drop pos input ≡ [] = drop_all pos input (leb→le _ _ past) in
      rw (past, e) (refl, sym (drop-nil (length delimiter)))
  | inr inside ↦ rw inside (
      token_from-Splits input delimiter pos _ refl
        (index_of_any-IndexSplits delimiter (drop pos input)))
]

-- `getRest` hands out all that is left.
pub get_rest-remaining :
    (input : Bytes) (p : Position)
    → ((get_rest input p).0 ≡ remaining input p) × (remaining input (get_rest input p).1 ≡ [])
unfolding get_rest
get_rest-remaining input npos = (refl, refl)
get_rest-remaining input (at pos) = elim (Bool-cases (leb (length input) pos)) [
  | inl past ↦
      let e : drop pos input ≡ [] = drop_all pos input (leb→le _ _ past) in
      rw (past, e) (refl, refl)
  | inr inside ↦ rw inside (refl, refl)
]

-- No byte of the text is a delimiter.
abbrev pub IsFree : Bytes → Bytes → Type 0
IsFree delimiter = All (λ c. contains delimiter c ≡ false)

pub length-split :
    (delimiter s : Bytes) → length (before delimiter s) + length (after delimiter s) ≡ length s
unfolding before after
length-split delimiter [] = omega arith
length-split delimiter (c ∷ cs) = ground (arith, length-split delimiter cs)

pub before-IsFree :
    (delimiter s rest : Bytes) (c : ℕ)
    → IsFree delimiter s
    → contains delimiter c ≡ true
    → (before delimiter (s ++ c ∷ rest) ≡ s) × (after delimiter (s ++ c ∷ rest) ≡ c ∷ rest)
unfolding before after
before-IsFree delimiter [] rest c f e = rw e (refl, refl)
before-IsFree delimiter (x ∷ s) rest c f e =
    let ih = before-IsFree delimiter s rest c f.1 e in rw f.0 (ap (◌∷◌ x) ih.0, ih.1)

pub before-IsFree_end :
    (delimiter s : Bytes) → IsFree delimiter s → (before delimiter s ≡ s) × (after delimiter s ≡ [])
unfolding before after
before-IsFree_end delimiter [] f = (refl, refl)
before-IsFree_end delimiter (x ∷ s) f =
    let ih = before-IsFree_end delimiter s f.1 in rw f.0 (ap (◌∷◌ x) ih.0, ih.1)

-- A call that gives a token leaves less of the input.
pub next_token-decreases :
    (input delimiter : Bytes) (p : Position)
    → (next_token input delimiter p).0 ≢ []
    → length (remaining input (next_token input delimiter p).1) < length (remaining input p)
next_token-decreases input delimiter p h =
    let s = next_token-split input delimiter p in
    let taken : 0 < length (before delimiter (remaining input p)) =
      length-pos _ (λ e. h (s.0 ∙ e)) in
    omega (
      arith,
      ap length s.1,
      length-drop (length delimiter) (after delimiter (remaining input p)),
      length-split delimiter (remaining input p),
      taken,
    )
  where
    length-pos : (t : Bytes) → t ≢ [] → 0 < length t
    length-pos [] ne = absurd (ne refl)
    length-pos (x ∷ t) ne = omega arith

-- A field in front of one delimiter byte, and the last field.
pub next_token_field :
    (input tok rest : Bytes) (c : ℕ) (p : Position)
    → remaining input p ≡ tok ++ c ∷ rest
    → IsFree (c ∷ []) tok
    → ((next_token input (c ∷ []) p).0 ≡ tok)
      × (remaining input (next_token input (c ∷ []) p).1 ≡ rest)
next_token_field input tok rest c p e f =
    let s = next_token-split input (c ∷ []) p in
    let cut = before-IsFree (c ∷ []) tok rest c f (contains-self c) in
    (
      s.0 ∙ ap (before (c ∷ [])) e ∙ cut.0,
      s.1 ∙ ap (λ r. drop 1 (after (c ∷ []) r)) e ∙ ap (drop 1) cut.1,
    )
  where
    contains-self : (c : ℕ) → contains (c ∷ []) c ≡ true
    contains-self c = ground arith

pub next_token_last :
    (input tok : Bytes) (c : ℕ) (p : Position)
    → remaining input p ≡ tok
    → IsFree (c ∷ []) tok
    → ((next_token input (c ∷ []) p).0 ≡ tok)
      × (remaining input (next_token input (c ∷ []) p).1 ≡ [])
next_token_last input tok c p e f =
    let s = next_token-split input (c ∷ []) p in
    let cut = before-IsFree_end (c ∷ []) tok f in
    (
      s.0 ∙ ap (before (c ∷ [])) e ∙ cut.0,
      s.1 ∙ ap (λ r. drop 1 (after (c ∷ []) r)) e ∙ ap (drop 1) cut.1,
    )

pub length-remaining-le : (input : Bytes) (p : Position) → length (remaining input p) ≤ length input
length-remaining-le input npos = omega arith
length-remaining-le input (at pos) = omega (arith, length-drop pos input)

-- No call makes the rest longer.
pub next_token-le :
    (input delimiter : Bytes) (p : Position)
    → length (remaining input (next_token input delimiter p).1) ≤ length (remaining input p)
next_token-le input delimiter p =
    let s = next_token-split input delimiter p in
    omega (
      arith,
      ap length s.1,
      length-drop (length delimiter) (after delimiter (remaining input p)),
      length-split delimiter (remaining input p),
    )

abbrev line_end : Bytes
line_end = b'\r' ∷ b'\n' ∷ []

-- A line that ends with CR LF is read off the remaining input.
pub next_token-line :
    (input line rest : Bytes) (p : Position)
    → remaining input p ≡ line ++ (line_end ++ rest)
    → IsFree line_end line
    → ((next_token input line_end p).0 ≡ line)
      × (remaining input (next_token input line_end p).1 ≡ rest)
next_token-line input line rest p e f =
    let s = next_token-split input line_end p in
    let cut = before-IsFree line_end line (b'\n' ∷ rest) b'\r' f refl in
    (
      s.0 ∙ ap (before line_end) e ∙ cut.0,
      s.1 ∙ ap (λ r. drop 2 (after line_end r)) e ∙ ap (drop 2) cut.1,
    )
