-- ===== src/Sip/Status.antt =====
-- The status tables of src/sipster/sip_enums.h. A `SipsterSipStatusEnum` is used as an index into both
-- arrays, so a status is its index, and `SIP_STATUS_NONE` is no index.
use sipster.Base.{ℕ, suc, List, [], ◌∷◌, Option, none, some, Bytes, codes, if◌then◌else◌, ◌==◌}

-- `statuses`, in the order of the enumeration.
abbrev pub statuses : List ℕ
statuses =
    100 ∷ 180 ∷ 181 ∷ 182 ∷ 183 ∷ 199 ∷ 200 ∷ 202 ∷ 204 ∷ 300 ∷ 301 ∷ 302 ∷ 305 ∷ 380 ∷ 400 ∷ 401
    ∷ 402 ∷ 403 ∷ 404 ∷ 405 ∷ 406 ∷ 407 ∷ 408 ∷ 409 ∷ 410 ∷ 411 ∷ 412 ∷ 413 ∷ 414 ∷ 415 ∷ 416 ∷ 417
    ∷ 420 ∷ 421 ∷ 422 ∷ 423 ∷ 424 ∷ 428 ∷ 429 ∷ 430 ∷ 433 ∷ 436 ∷ 437 ∷ 438 ∷ 439 ∷ 470 ∷ 480 ∷ 481
    ∷ 482 ∷ 483 ∷ 484 ∷ 485 ∷ 486 ∷ 487 ∷ 488 ∷ 489 ∷ 491 ∷ 493 ∷ 494 ∷ 500 ∷ 501 ∷ 502 ∷ 503 ∷ 504
    ∷ 505 ∷ 513 ∷ 580 ∷ 600 ∷ 603 ∷ 604 ∷ 606 ∷ []

-- `status_phrases`, in the same order.
abbrev pub status_phrases : List Bytes
status_phrases =
    codes "Trying"
    ∷ codes "Ringing"
    ∷ codes "Call Forwarding"
    ∷ codes "Queued"
    ∷ codes "Session In Progress"
    ∷ codes "Early Dialog Terminated"
    ∷ codes "OK"
    ∷ codes "Accepted"
    ∷ codes "No Notification"
    ∷ codes "Multiple Choices"
    ∷ codes "Moved Permanently"
    ∷ codes "Moved Temporarily"
    ∷ codes "Use Procy"
    ∷ codes "Alternative Service"
    ∷ codes "Bad Request"
    ∷ codes "Unauthorized"
    ∷ codes "Payment Required"
    ∷ codes "Forbidden"
    ∷ codes "Not Found"
    ∷ codes "Method Not Allowed"
    ∷ codes "Not Acceptable"
    ∷ codes "Proxy Authentication Required"
    ∷ codes "Request Timeout"
    ∷ codes "Conflict"
    ∷ codes "Gone"
    ∷ codes "Length Required"
    ∷ codes "Conditional Request Failed"
    ∷ codes "Request Entity Too Large"
    ∷ codes "Request Uri Too Long"
    ∷ codes "Unsupported Media Type"
    ∷ codes "Unsupported Uri Scheme"
    ∷ codes "Unknown Resource Priority"
    ∷ codes "Bad Extension"
    ∷ codes "Extension Required"
    ∷ codes "Session Interval Too Small"
    ∷ codes "Interval Too Brief"
    ∷ codes "Bad Location Information"
    ∷ codes "Use Identity Header"
    ∷ codes "Provide Referrer Identity"
    ∷ codes "Flow Failed"
    ∷ codes "Anonymity Disallowed"
    ∷ codes "Bad Identity Info"
    ∷ codes "Unsupported Certificate"
    ∷ codes "Invalid Identity Header"
    ∷ codes "First Hop Lacks Outbound Support"
    ∷ codes "Consent Needed"
    ∷ codes "Temporarily Unavailable"
    ∷ codes "Call Transaction Does Not Exist"
    ∷ codes "Loop Detected"
    ∷ codes "Too Many Hops"
    ∷ codes "Address Incomplete"
    ∷ codes "Ambiguous"
    ∷ codes "Busy Here"
    ∷ codes "Request Terminated"
    ∷ codes "Not Acceptable Here"
    ∷ codes "Bad Event"
    ∷ codes "Request Pending"
    ∷ codes "Undecipherable"
    ∷ codes "Security Agreement Required"
    ∷ codes "Server Internal Error"
    ∷ codes "Not Implemented"
    ∷ codes "Bad Gateway"
    ∷ codes "Service Unavailable"
    ∷ codes "Server Time Out"
    ∷ codes "Version Not Supported"
    ∷ codes "Message Too Large"
    ∷ codes "Precondition Failure"
    ∷ codes "Busy Everywhere"
    ∷ codes "Decline"
    ∷ codes "Does Not Exist Anywhere"
    ∷ codes "Not Acceptable"
    ∷ []

-- The names of the enumeration that the code mentions.
abbrev pub status_200_ok : ℕ
status_200_ok = 6

abbrev pub status_204_no_notification : ℕ
status_204_no_notification = 8

abbrev pub status_400_bad_request : ℕ
status_400_bad_request = 14

abbrev pub status_481_call_transaction_does_not_exist : ℕ
status_481_call_transaction_does_not_exist = 47

-- The loop over `statuses`: the first index, counted from `i`, that holds this code.
unfoldable pub find_status : ℕ → ℕ → List ℕ → Option ℕ
find_status code i [] = none
find_status code i (c ∷ cs) = if code == c then some i else find_status code (suc i) cs
