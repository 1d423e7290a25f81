-- ===== src/Dialog/Template/Laws.antt =====
-- When a request of a leg can be made, and that its answers find the leg.
use sipster.Base.{
  ℕ, [], ◌∷◌, Option, none, some, ◌≡◌, ◌≢◌, refl, ap, ◌∙◌, Exec, ok, ◌>>=◌, Bytes, codes, length,
  ◌<◌, arith, take_all,
}
use sipster.Text.{c_str, strncpy_full, strncpy_bounded}
use sipster.Sip.Enums.{Method, method_none, method_name, HeaderId, return_ok}
use sipster.Sip.Parameter.{Parameter, parameter_create, parameter_get}
use sipster.Sip.Inet.{InetAddress}
use sipster.Sip.Address.{Address, address_print, address_uri_print, uri_text}
use sipster.Sip.Header.{string_content, address_content}
use sipster.Sip.Chain.{link_header, append_new_header, get_header, collect}
use sipster.Sip.Message.{Request}
use sipster.Dialog.{CallLeg, Sipster}
use sipster.Dialog.Lookup.{only_header, tag_of, find_leg, get_call_leg_for_response}
use sipster.Dialog.Lookup.Laws.{get_call_leg_for_response_known}
use sipster.Dialog.Template.{Ntop, method_at, template_headers, request_create_template}

-- Every array of the address holds its NUL.
abbrev pub IsTerminatedAddress : Address → Type 0
IsTerminatedAddress a =
    (length a.schema < 16) × (length a.name < 256) × (length a.user < 256) × (length a.domain < 256)

abbrev pub IsTerminated : CallLeg → Type 0
IsTerminated leg =
    (length leg.call_id < 150)
    × (length leg.from_tag < 15)
    × (length leg.to_tag < 15)
    × IsTerminatedAddress leg.from
    × IsTerminatedAddress leg.to

c_str-terminated : (cap : ℕ) (s : Bytes) → length s < cap → c_str cap s ≡ ok s
unfolding c_str
c_str-terminated cap s h = ground arith

-- The run gives a value with that property.
abbrev Yields {ℓ κ} : {A : Type ℓ} → (A → Type κ) → Exec A → Type (ℓ ⊔ κ)
Yields {A = A} P m = (a : A) × (m ≡ ok a) × P a

>>=-Yields {ℓ κ ι} :
    {A : Type ℓ} {B : Type κ} {P : B → Type ι} (m : Exec A) (f : A → Exec B) {a : A}
    → m ≡ ok a
    → Yields P (f a)
    → Yields P (m >>= f)
>>=-Yields m f e v = rw e v

uri_text_total : (a : Address) → IsTerminatedAddress a → Yields (λ _. Unit {0}) (uri_text a)
unfolding uri_text
uri_text_total a (s, n, u, d) = >>=-Yields _ _ (c_str-terminated 16 a.schema s) (
    >>=-Yields _ _ (c_str-terminated 256 a.user u)
      (>>=-Yields _ _ (c_str-terminated 256 a.domain d) (_, refl, tt)))

address_print_total :
    (a : Address) → IsTerminatedAddress a → Yields (λ _. Unit {0}) (address_print a)
unfolding address_print
address_print_total a v =
    >>=-Yields _ _ (c_str-terminated 256 a.name v.1)
      (>>=-Yields _ _ (uri_text_total a v).1 (_, refl, tt))

address_uri_print_total :
    (a : Address) → IsTerminatedAddress a → Yields (λ _. Unit {0}) (address_uri_print a)
unfolding address_uri_print
address_uri_print_total a v = >>=-Yields _ _ (uri_text_total a v).1 (_, refl, tt)

method_at_total : (m : Method) → m ≢ method_none → method_at m ≡ ok (method_name m)
unfolding method_at
method_at_total method_none h = absurd (h refl)
method_at_total _ h = refl

template_headers-call_id :
    (to to_tag from from_tag via random call_id name : Bytes) (method : Method)
    → only_header HeaderId.call_id
        (template_headers to to_tag from from_tag via random call_id name method)
      ≡ some (record {
        header_id = HeaderId.call_id;
        content = string_content (strncpy_full 300 call_id);
      })
unfolding template_headers only_header get_header collect link_header append_new_header
template_headers-call_id to to_tag from from_tag via random call_id name method = refl

template_headers-from :
    (to to_tag from from_tag via random call_id name : Bytes) (method : Method)
    → only_header HeaderId.from
        (template_headers to to_tag from from_tag via random call_id name method)
      ≡ some (record {
        header_id = HeaderId.from;
        content =
            address_content
              (strncpy_full 100 from)
              none
              (parameter_create (codes "tag") from_tag ∷ []);
      })
unfolding template_headers only_header get_header collect link_header append_new_header
template_headers-from to to_tag from from_tag via random call_id name method = refl

-- The tag that a leg sends in From.
abbrev pub from_parameter : CallLeg → Parameter
from_parameter leg = parameter_create (codes "tag") leg.from_tag

from_tag_found :
    (address tag : Bytes)
    → tag_of (record {
      header_id = HeaderId.from;
      content = address_content address none (parameter_create (codes "tag") tag ∷ []);
    })
      ≡ some (parameter_create (codes "tag") tag)
unfolding parameter_get parameter_create strncpy_bounded
from_tag_found address tag = refl

c_str-strncpy_full : (s : Bytes) → length s < 150 → c_str 300 (strncpy_full 300 s) ≡ ok s
unfolding strncpy_full
c_str-strncpy_full s h =
    ap (c_str 300) (take_all 300 s (omega arith)) ∙ c_str-terminated 300 s (omega arith)

-- A leg whose arrays all hold their NUL makes a request of every method of the table, and a response
-- that carries the headers of that request gets the leg that the maps hold under the leg's Call-ID and
-- From tag.
pub get_call_leg_for_response-request_create_template :
    (s : Sipster) (ntop : Ntop) (leg : CallLeg) (peer : InetAddress) (random : Bytes)
    (method : Method) (content : Option (Bytes × Bytes × ℕ)) (k : ℕ)
    → IsTerminated leg
    → method ≢ method_none
    → find_leg leg.call_id (some (from_parameter leg)) s.legs ≡ some k
    → (r : Request × CallLeg) × (request_create_template ntop leg peer random method content ≡ ok r)
      × (get_call_leg_for_response s r.0.headers ≡ ok (return_ok, some k))
unfolding request_create_template
get_call_leg_for_response-request_create_template s ntop leg peer random method content k
      (id, ft, tt', f, t) known found =
    >>=-Yields _ _ (method_at_total method known) (
      >>=-Yields _ _ (address_uri_print_total leg.to t).1 (
        >>=-Yields _ _ (address_print_total leg.to t).1 (
          >>=-Yields _ _ (c_str-terminated 15 leg.to_tag tt') (
            >>=-Yields _ _ (address_print_total leg.from f).1 (
              >>=-Yields _ _ (c_str-terminated 15 leg.from_tag ft) (
                >>=-Yields _ _ (c_str-terminated 150 leg.call_id id)
                  (_, refl, looked_up _ _ _ _ _)))))))
  where
    looked_up :
        (to to_tag from via name : Bytes)
        → get_call_leg_for_response s
            (template_headers to to_tag from leg.from_tag via random leg.call_id name method)
          ≡ ok (return_ok, some k)
    looked_up to to_tag from via name =
        get_call_leg_for_response_known s _ _ _ leg.call_id k
          (template_headers-call_id to to_tag from leg.from_tag via random leg.call_id name method)
          (c_str-strncpy_full leg.call_id id)
          (template_headers-from to to_tag from leg.from_tag via random leg.call_id name method)
          (ap (λ p. find_leg leg.call_id p s.legs)
              (from_tag_found (strncpy_full 100 from) leg.from_tag)
            ∙ found)
