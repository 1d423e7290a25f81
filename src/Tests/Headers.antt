-- ===== src/Tests/Headers.antt =====
-- Applications of the theorems on tokens, numbers, parameters and header lists.
use sipster.Base.{
  ◌+◌, [], ◌∷◌, ◌++◌, some, ◌≡◌, refl, ok, Bytes, codes, arith, if◌then◌else◌, ◌≢◌, inl, drop,
}
use sipster.Text.{at, next_token}
use sipster.Text.Token.Split.{remaining, before, after, next_token-split}
use sipster.Sip.Enums.{HeaderId, same_header}
use sipster.Sip.Parameter.{Parameter, parse_header_params, print_params}
use sipster.Sip.Parameter.RoundTrip.{IsPrintable, parse_header_params-print_params}
use sipster.Sip.Header.{Header}
use sipster.Sip.Chain.{append_new_header, empty_chain, link_header, get_header}
use sipster.Sip.Chain.Laws.{append_new_header-IsChain, IsChain, get_header-link_header}
use sipster.Tests.{text_header}

abbrev tagged : Bytes
tagged = codes "<sip:a@b>;tag=x1"

next_token-split_example :
    ((next_token tagged (codes ";") (at 0)).0 ≡ before (codes ";") tagged)
    × (remaining tagged (next_token tagged (codes ";") (at 0)).1
        ≡ drop 1 (after (codes ";") tagged))
next_token-split_example = next_token-split tagged (codes ";") (at 0)

tagged_token : (next_token tagged (codes ";") (at 0)).0 ≢ []
unfolding next_token
tagged_token e = cc

abbrev tag_parameter : Parameter
tag_parameter = record { name = codes "tag"; value = codes "x1" }

tag_parameter-IsPrintable : IsPrintable tag_parameter
tag_parameter-IsPrintable = record {
  name_free = ground arith;
  value_free = ground arith;
  name_fits = omega arith;
  value_fits = omega arith;
}

parse_header_params-print_params_example :
    ((next_token (codes "<sip:a@b>" ++ print_params (tag_parameter ∷ [])) (codes ";") (at 0)).0
      ≡ codes "<sip:a@b>")
    × (parse_header_params
          (codes "<sip:a@b>" ++ print_params (tag_parameter ∷ []))
          (next_token (codes "<sip:a@b>" ++ print_params (tag_parameter ∷ [])) (codes ";") (at 0)).1
        ≡ ok (tag_parameter ∷ []))
parse_header_params-print_params_example =
    parse_header_params-print_params (codes "<sip:a@b>") (tag_parameter ∷ []) (ground arith)
      (tag_parameter-IsPrintable, tt)

abbrev agent : Header
agent = text_header HeaderId.user_agent (codes "sipster")

empty_chain-IsChain : IsChain empty_chain
empty_chain-IsChain = record { counted = refl; indexed = tt }

get_header-link_header_example : get_header HeaderId.user_agent (link_header empty_chain agent) ≡ (
    if same_header HeaderId.user_agent HeaderId.user_agent
    then record {
      headers = (get_header HeaderId.user_agent empty_chain).headers ++ some agent ∷ [];
      count = (get_header HeaderId.user_agent empty_chain).count + 1;
    }
    else get_header HeaderId.user_agent empty_chain)
get_header-link_header_example =
    get_header-link_header HeaderId.user_agent empty_chain agent (inl (refl, refl))

append_new_header-IsChain_example : IsChain (append_new_header empty_chain agent)
append_new_header-IsChain_example =
    append_new_header-IsChain empty_chain agent (record { counted = refl; indexed = tt })
