-- ===== src/Tests/Processing.antt =====
-- The handling of messages on concrete requests.
use sipster.Base.{
  null_deref, ℕ, arith, [], ◌∷◌, none, some, ◌≡◌, refl, ok, fault, use_after_free, Exec, codes,
  length, get_elem?, true,
}
use sipster.Text.{strncpy_bounded, ℤ, pos, c_str, snprintf, decimal, digits, strncpy_full}
use sipster.Sip.Enums.{return_ok, call_not_found, HeaderId}
use sipster.Sip.Address.{zeroed}
use sipster.Sip.Parameter.{
  parameters_clone, parameter_create, Parameter, parameter_get, append_parameter, print_params,
}
use sipster.Sip.Chain.{get_header, collect, append_new_header, link_header}
use sipster.Sip.Header.Clone.{header_clone, clone_content}
use sipster.Sip.Header.Print.{print_header, print_content}
use sipster.Sip.Message.{Request}
use sipster.Sip.Message.Line.{response_print_line}
use sipster.Sip.Message.Print.{
  response_print, print_message, print_leaves, complete_headers, body_bytes, allocation_size,
}
use sipster.Sip.Message.Respond.{
  create_response, answer_leaves, response_tag, answer_header, describe_content,
}
use sipster.Dialog.{Sipster, CallLeg, outbound, find_key, call_leg_create}
use sipster.Dialog.Lookup.{find_leg, only_header, get_call_leg_for_request}
use sipster.Dialog.Runtime.{
  Application, Runtime, read_leg, answer, request_reply, send_response, take_description,
  code_value,
}
use sipster.Dialog.Process.{
  handle_request, process_found, process_looked_up, process_request, message_handler,
}
use sipster.Dialog.Process.Laws.{
  IsAnswered, message_handler-request_parse_refused, process_request-process_request_freed,
  process_request-IsAnswered, message_handler-text_with_bad, refusal_code,
}
use sipster.Dialog.Table.{IsEntered, call_leg_create-IsEntered}
use sipster.Dialog.Reach.{start, next, created}
use sipster.Dialog.Reach.Filed.{Reachable-IsFiled}
use sipster.Sip.Message.Parse.Unknown.{text_with_bad}
use sipster.Tests.Messages.{
  via_header, via_header-HasLine, event_line, event_line-unknown, ok_line, ok_parsed,
  ok_line-accepted,
}
use sipster.Tests.{resolver, bye_request, unknown_text, hello_unknown, text_header}
use sipster.Sip.Message.{ContentBody}
use sipster.Dialog.Process.Bodies.{take_description-sdp_print}
use sipster.Tests.Descriptions.{
  call_text, call_session, call-IsPrintable, call-IsSession, call_size, sdp_print-call,
}
use sipster.Tests.Legs.{
  nowhere, fresh, first_leg, one_leg, creates, found_before, tag_parameter, dialog_headers, party,
  held,
}

call_leg_create-IsEntered_example :
    (s' : Sipster) × (call_leg_create fresh outbound
        (codes "7")
        zeroed
        (some (codes "x1"))
        zeroed
        none
        nowhere
        nowhere
        none
        none
      ≡ ok (length fresh.store, s'))
    × IsEntered fresh (codes "7") (codes "x1") s'
call_leg_create-IsEntered_example =
    call_leg_create-IsEntered fresh outbound (codes "7") zeroed (some (codes "x1")) zeroed none
      nowhere nowhere none none (codes "x1") refl

Reachable-IsFiled_example :
    (leg : CallLeg) × (get_elem? one_leg.store 0 ≡ some leg)
    × (leg.call_id ≡ strncpy_full 150 (codes "7"))
Reachable-IsFiled_example =
    Reachable-IsFiled one_leg (codes "7") tag_parameter 0
      (next (start fresh refl) (
        created outbound (codes "7") zeroed (some (codes "x1")) zeroed none nowhere nowhere none
          none creates))
      found_before

-- An application whose handlers do nothing.
abbrev idle : Application
idle = record { on_request = λ h l r w. ok (pos 0, w); on_response = λ h l r w. ok (pos 0, w) }

abbrev running : Runtime
running = record { sipster = one_leg; freed = []; remote_data = []; rport = 5060; sent = [] }

message_handler-request_parse_refused_example :
    message_handler idle resolver running nowhere unknown_text 25 ≡ fault use_after_free
message_handler-request_parse_refused_example =
    message_handler-request_parse_refused idle resolver running nowhere unknown_text 25 refl
      hello_unknown

-- A request in the dialog of the first leg.
abbrev within : Request
within = record bye_request { headers = dialog_headers; remote_addr = some nowhere }

within_leg : get_call_leg_for_request one_leg dialog_headers true ≡ ok (return_ok, some 0, one_leg)
unfolding get_call_leg_for_request only_header get_header collect find_leg find_key parameter_get
    c_str
within_leg = refl

abbrev runtime_of : Exec (ℤ × Runtime) → Runtime
runtime_of (ok r) = r.1
runtime_of (fault e) = running

abbrev after : Runtime
after = runtime_of (process_request idle running within)

reads_leg : read_leg running 0 ≡ ok first_leg
unfolding read_leg
reads_leg = refl

accepts : process_request idle running within ≡ ok (pos 0, after)
unfolding process_request get_call_leg_for_request only_header get_header collect find_leg find_key
    parameter_get c_str process_looked_up process_found take_description read_leg handle_request
    answer create_response answer_leaves response_tag header_clone clone_content answer_header
    describe_content link_header append_new_header request_reply response_print print_message
    print_leaves complete_headers print_header print_content body_bytes response_print_line snprintf
    decimal digits allocation_size send_response print_params append_parameter parameters_clone
    parameter_create strncpy_bounded
accepts = refl

finds_again :
    get_call_leg_for_request after.sipster dialog_headers true ≡ ok (return_ok, some 0, one_leg)
unfolding process_request get_call_leg_for_request only_header get_header collect find_leg find_key
    parameter_get c_str process_looked_up process_found take_description read_leg handle_request
    answer create_response answer_leaves response_tag header_clone clone_content answer_header
    describe_content link_header append_new_header request_reply response_print print_message
    print_leaves complete_headers print_header print_content body_bytes response_print_line snprintf
    decimal digits allocation_size send_response print_params append_parameter parameters_clone
    parameter_create strncpy_bounded
finds_again = refl

process_request-process_request_freed_example :
    process_request idle after within ≡ fault use_after_free
process_request-process_request_freed_example =
    process_request-process_request_freed idle running within within 0 one_leg one_leg within_leg
      refl reads_leg refl accepts finds_again refl

-- A request outside all dialogs.
abbrev stray_tag : Parameter
stray_tag = record { name = codes "tag"; value = codes "x9" }

abbrev stray : Request
stray = record within {
  headers = record {
    leaves =
        held 0 (text_header HeaderId.call_id (codes "7"))
        ∷ held 1 (party HeaderId.from [])
        ∷ held 2 (party HeaderId.to (stray_tag ∷ []))
        ∷ [];
    count = 3;
    first_header = some 0;
  };
}

stray_leg : get_call_leg_for_request one_leg stray.headers true ≡ ok (call_not_found, none, one_leg)
unfolding get_call_leg_for_request only_header get_header collect find_leg find_key parameter_get
    c_str
stray_leg = refl

abbrev after_stray : Runtime
after_stray = runtime_of (process_request idle running stray)

refuses : process_request idle running stray ≡ ok (pos 0, after_stray)
unfolding process_request get_call_leg_for_request only_header get_header collect find_leg find_key
    parameter_get c_str process_looked_up process_found take_description read_leg handle_request
    answer create_response answer_leaves response_tag header_clone clone_content answer_header
    describe_content link_header append_new_header request_reply response_print print_message
    print_leaves complete_headers print_header print_content body_bytes response_print_line snprintf
    decimal digits allocation_size send_response print_params append_parameter parameters_clone
    parameter_create strncpy_bounded
refuses = refl

process_request-IsAnswered_example :
    (pos 0 ≡ code_value return_ok)
    × ((status : ℕ) × IsAnswered running stray status (refusal_code call_not_found) after_stray)
process_request-IsAnswered_example =
    process_request-IsAnswered idle running after_stray stray call_not_found none one_leg (pos 0)
      stray_leg (λ e. cc) refuses

message_handler-text_with_bad_example :
    message_handler idle resolver running nowhere
      (text_with_bad resolver ok_line (via_header ∷ []) via_header-HasLine event_line [])
      70
    ≡ fault null_deref
message_handler-text_with_bad_example =
    message_handler-text_with_bad idle resolver running nowhere ok_line ok_parsed (via_header ∷ [])
      via_header-HasLine event_line [] 70 refl (ground arith) ok_line-accepted (ground arith) refl
      event_line-unknown

-- A body whose content type is another.
abbrev call_body : ContentBody
call_body = record {
  content_type = codes "text/plain";
  length = length call_text;
  body = call_text;
}

take_description-sdp_print_example :
    take_description running (some 0) (some call_body)
    ≡ ok (record running { remote_data = (0, call_session) ∷ [] })
take_description-sdp_print_example =
    take_description-sdp_print running 0 first_leg call_body call_session call-IsPrintable
      call-IsSession call_size sdp_print-call (omega arith) reads_leg
