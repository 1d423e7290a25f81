-- ===== src/Sdp/Session/Stored.antt =====
-- A session that is built up from its own headers.
use sipster.Base.{
  bind-eq-ok, ℕ, ◌+◌, ◌<◌, ◌≤◌, List, [], ◌∷◌, ◌++◌, Option, none, some, ◌≡◌, refl, ap, ◌∙◌, arith,
  ok, Exec, ◌>>=◌, length, length-append, append-nil, append_assoc,
}
use sipster.Sdp.Types.{SdpHeaderType, Attribute, SdpContent, SdpHeader, MediaSection, Session}
use sipster.Sdp.Session.{
  append_attribute, section_attribute, session_attribute, on_last, in_section, store_header, store,
  optional, attribute_headers,
}

-- The headers in turn.
unfoldable pub store_all : List SdpHeader → Session → Exec Session
store_all [] s = ok s
store_all (h ∷ hs) s = do s' ← store (some h) s; store_all hs s'

-- Headers that lead from one session to another, in front of others.
pub store_all-append :
    (hs rest : List SdpHeader) (s s' : Session)
    → store_all hs s ≡ ok s'
    → store_all (hs ++ rest) s ≡ store_all rest s'
unfolding store_all
store_all-append [] rest s s' e = rw (ok-inj e) refl
  where
    ok-inj : {a b : Session} → ok a ≡ ok b → a ≡ b
    ok-inj e = cc
store_all-append (h ∷ hs) rest s s' e =
    let (t, first, last) = bind-eq-ok (store (some h) s) _ e in
    rw first (store_all-append hs rest t s' last)

-- A header that is there sets its field, one that is not leaves it NULL.
pub store_all-optional {ℓ} :
    {A : Type ℓ} (t : SdpHeaderType) (inj : A → SdpContent) (field : Option A → Session)
    (o : Option A)
    → ((a : A) → store_header t (inj a) (field none) ≡ ok (field (some a)))
    → store_all (optional t inj o) (field none) ≡ ok (field o)
unfolding store_all store
store_all-optional t inj field none h = refl
store_all-optional t inj field (some a) h = rw (h a) refl

append_attribute-fits :
    (n : ℕ) (attrs : List (Option Attribute)) (a : Option Attribute)
    → length attrs < n
    → append_attribute n attrs a ≡ ok (attrs ++ a ∷ [])
append_attribute-fits n attrs a h = ground arith

-- The attributes of the session stand in front of its first section.
pub store_all-session_attributes :
    (attrs more : List (Option Attribute)) (s : Session)
    → length attrs + length more ≤ 10
    → store_all (attribute_headers more) (record s { attributes = attrs; media = [] })
      ≡ ok (record s { attributes = attrs ++ more; media = [] })
unfolding store_all store store_header in_section session_attribute
store_all-session_attributes attrs [] s h = rw (append-nil attrs) refl
store_all-session_attributes attrs (a ∷ more) s h =
    rw (append_attribute-fits 10 attrs a (omega (arith, h))) (
      store_all-session_attributes (attrs ++ a ∷ []) more s
        (omega (arith, h, length-append attrs (a ∷ [])))
      ∙ ap (λ all. ok (record s { attributes = all; media = [] }))
          (append_assoc attrs (a ∷ []) more))

-- A session whose last section is given.
abbrev pub with_last : Session → List MediaSection → MediaSection → Session
with_last s ms m = record s { media = ms ++ m ∷ [] }

on_last-append :
    (f : MediaSection → Exec MediaSection) (ms : List MediaSection) (m m' : MediaSection)
    → f m ≡ ok m'
    → on_last f (ms ++ m ∷ []) ≡ ok (ms ++ m' ∷ [])
unfolding on_last
on_last-append f [] m m' e = rw e refl
on_last-append f (n ∷ []) m m' e = rw e refl
on_last-append f (n ∷ k ∷ ms) m m' e = rw (on_last-append f (k ∷ ms) m m' e) refl

pub in_section-last :
    (f : MediaSection → Exec MediaSection) (g : Session → Exec Session) (s : Session)
    (ms : List MediaSection) (m m' : MediaSection)
    → f m ≡ ok m'
    → in_section f g (ms ++ m ∷ []) (with_last s ms m) ≡ ok (with_last s ms m')
unfolding in_section
in_section-last f g s [] m m' e = rw (on_last-append f [] m m' e) refl
in_section-last f g s (n ∷ ms) m m' e = rw (on_last-append f (n ∷ ms) m m' e) refl

pub store_all-section_attributes :
    (s : Session) (ms : List MediaSection) (m : MediaSection) (attrs more : List (Option Attribute))
    → length attrs + length more ≤ 20
    → store_all (attribute_headers more) (with_last s ms (record m { attributes = attrs }))
      ≡ ok (with_last s ms (record m { attributes = attrs ++ more }))
unfolding store_all store store_header section_attribute
store_all-section_attributes s ms m attrs [] h = rw (append-nil attrs) refl
store_all-section_attributes s ms m attrs (a ∷ more) h =
    let stored =
      in_section-last (section_attribute a) (session_attribute a) s ms
        (record m { attributes = attrs }) (record m { attributes = attrs ++ a ∷ [] })
        (rw (append_attribute-fits 20 attrs a (omega (arith, h))) refl) in
    rw stored (
      store_all-section_attributes s ms m (attrs ++ a ∷ []) more
        (omega (arith, h, length-append attrs (a ∷ [])))
      ∙ ap (λ all. ok (with_last s ms (record m { attributes = all })))
          (append_assoc attrs (a ∷ []) more))

-- The header of a field, in front of the headers behind it.
pub store_optional {ℓ} :
    {A : Type ℓ} (t : SdpHeaderType) (inj : A → SdpContent) (field : Option A → Session)
    (o : Option A) (rest : List SdpHeader)
    → ((a : A) → store_header t (inj a) (field none) ≡ ok (field (some a)))
    → store_all (optional t inj o ++ rest) (field none) ≡ store_all rest (field o)
store_optional t inj field o rest h =
    store_all-append (optional t inj o) rest (field none) (field o)
      (store_all-optional t inj field o h)
