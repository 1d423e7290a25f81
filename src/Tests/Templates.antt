-- ===== src/Tests/Templates.antt =====
-- A request that a call leg makes, and its response.
use sipster.Base.{◌≡◌, refl, arith, some, none, ok, codes}
use sipster.Text.{strncpy_bounded}
use sipster.Sip.Enums.{Method, return_ok}
use sipster.Sip.Message.{Request}
use sipster.Sip.Parameter.{parameter_create}
use sipster.Dialog.{CallLeg, find_key}
use sipster.Dialog.Lookup.{find_leg, get_call_leg_for_response}
use sipster.Dialog.Template.{Ntop, request_create_template}
use sipster.Dialog.Template.Laws.{
  IsTerminated, from_parameter, get_call_leg_for_response-request_create_template,
}
use sipster.Tests.Legs.{nowhere, first_leg, one_leg}

abbrev loopback : Ntop
loopback type address = codes "127.0.0.1"

first_leg-IsTerminated : IsTerminated first_leg
first_leg-IsTerminated = omega arith

first_leg_found : find_leg (codes "7") (some (from_parameter first_leg)) one_leg.legs ≡ some 0
unfolding find_leg find_key parameter_create strncpy_bounded
first_leg_found = refl

get_call_leg_for_response-request_create_template_example :
    (r : Request × CallLeg) × (request_create_template loopback first_leg nowhere
        (codes "abc")
        Method.invite
        none
      ≡ ok r)
    × (get_call_leg_for_response one_leg r.0.headers ≡ ok (return_ok, some 0))
get_call_leg_for_response-request_create_template_example =
    get_call_leg_for_response-request_create_template one_leg loopback first_leg nowhere
      (codes "abc") Method.invite none 0 first_leg-IsTerminated (λ e. cc) first_leg_found
