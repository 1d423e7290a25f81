-- ===== src/Sip/Header/Parse/Fuel.antt =====
-- No header runs its parse function out of fuel.
use sipster.Base.{arith, Option, none, some, InFuel, >>=-InFuel, Bytes, ℕ}
use sipster.Text.{Position, strncpy_all}
use sipster.Sip.Inet.{Resolver}
use sipster.Sip.Address.Fuel.{address_parse-InFuel}
use sipster.Sip.Parameter.{parse_header_params}
use sipster.Sip.Parameter.RoundTrip.{parse_header_params_total}
use sipster.Sip.Header.{Codec, addr_codec, via_codec, ct_codec, ci_codec, HeaderMap}
use sipster.Sip.Header.Parse.{
  addr_parse, via_parse, ci_parse, ct_parse, parse_content, parse_with, parse_header,
}

pub strncpy_all-InFuel : (cap : ℕ) (s : Bytes) → InFuel (strncpy_all cap s)
unfolding strncpy_all
strncpy_all-InFuel cap s = ground arith

params-InFuel : (input : Bytes) (pos : Position) → InFuel (parse_header_params input pos)
params-InFuel input pos = let (ps, e) = parse_header_params_total input pos in rw e tt

parse_content-InFuel : (g : Resolver) (c : Codec) (input : Bytes) → InFuel (parse_content g c input)
unfolding parse_content addr_parse via_parse ci_parse ct_parse
parse_content-InFuel g addr_codec input =
    >>=-InFuel _ _
      (>>=-InFuel _ _ (strncpy_all-InFuel 100 _) λ f.
        >>=-InFuel _ _ (address_parse-InFuel _) λ a. >>=-InFuel _ _ (params-InFuel input _) λ p. tt)
      λ c. tt
parse_content-InFuel g via_codec input =
    >>=-InFuel _ _ (>>=-InFuel _ _ (params-InFuel input _) λ p. tt) λ c. tt
parse_content-InFuel g ct_codec input =
    >>=-InFuel _ _
      (>>=-InFuel _ _ (strncpy_all-InFuel 150 _)
        λ f. >>=-InFuel _ _ (params-InFuel input _) λ p. tt)
      λ c. tt
parse_content-InFuel g ci_codec input =
    >>=-InFuel _ _ (>>=-InFuel _ _ (strncpy_all-InFuel 300 _) λ f. tt) λ c. tt
parse_content-InFuel g _ input = tt

parse_with-InFuel :
    (g : Resolver) (m : Option HeaderMap) (input : Bytes) → InFuel (parse_with g m input)
unfolding parse_with
parse_with-InFuel g none input = tt
parse_with-InFuel g (some m) input = >>=-InFuel _ _ (parse_content-InFuel g m.codec input) λ c. tt

-- Every line is taken apart in the rounds that its length allows.
pub parse_header-InFuel : (g : Resolver) (input : Bytes) → InFuel (parse_header g input)
unfolding parse_header
parse_header-InFuel g input = parse_with-InFuel g _ _
