-- ===== src/Sip/Parameter.antt =====
-- The parameters of src/sip_headers.cpp: a linked list of names and values behind a header.
pub mod RoundTrip
pub mod Search
use sipster.Base.{
  ℕ, zero, suc, List, [], ◌∷◌, ◌++◌, Option, none, some, Exec, ok, fault, out_of_fuel, ◌>>=◌,
  if◌then◌else◌, Bytes, equal, starts_with, length,
}
use sipster.Text.{Position, at, next_token, strncpy_bounded}

-- `struct _SipsterSipParameter`: `char name[20]`, `char value[30]`, and the link, which is the list's.
pub record Parameter : Type 0 where
  pub name : Bytes
  pub value : Bytes

-- `sipster_sip_parameter_create`.
unfoldable pub parameter_create : Bytes → Bytes → Parameter
parameter_create key value = record {
  name = strncpy_bounded 20 key;
  value = strncpy_bounded 30 value;
}

-- `key=value`, as the body of the loop of `parse_header_params` takes it apart.
unfoldable pub parse_parameter : Bytes → Parameter
unfolding parameter_create
parse_parameter param =
    let (key, pos) = next_token param (b'=' ∷ []) (at 0) in
    let (val, pos') = next_token param (b'=' ∷ []) pos in parameter_create key val

-- `parse_header_params`: its first round stands before the loop in the source, and does the same.
unfoldable pub params_loop : ℕ → Bytes → Position → Exec (List Parameter)
params_loop zero input pos = fault out_of_fuel
params_loop (suc fuel) input pos =
    let (param, pos') = next_token input (b';' ∷ []) pos in
    let rest = params_loop fuel input pos' in
    if equal param [] then ok [] else (do ps ← rest; ok (parse_parameter param ∷ ps))

-- A round with a token takes at least a byte of the input, and one more round finds the end.
unfoldable pub parse_header_params : Bytes → Position → Exec (List Parameter)
parse_header_params input pos = params_loop (suc (length input)) input pos

-- The loop that prints `;name=value` for each parameter.
unfoldable pub print_params : List Parameter → Bytes
print_params [] = []
print_params (p ∷ ps) = b';' ∷ (p.name ++ (b'=' ∷ (p.value ++ print_params ps)))

-- `sipster_sip_parameter_get`: the first parameter whose name begins with the wanted one.
unfoldable pub parameter_get : Bytes → List Parameter → Option Parameter
parameter_get name [] = none
parameter_get name (p ∷ ps) = if starts_with name p.name then some p else parameter_get name ps

-- The `while` of `sipster_sip_header_append_parameter`, at a parameter that is kept.
append_after : List Parameter → Parameter → List Parameter
append_after [] param = param ∷ []
append_after (p ∷ ps) param =
    if equal p.name param.name then param ∷ ps else p ∷ append_after ps param

-- `sipster_sip_header_append_parameter`: one of that name is replaced where it stands.
unfoldable pub append_parameter : List Parameter → Parameter → List Parameter
unfolding append_after
append_parameter [] param = param ∷ []
append_parameter (p ∷ ps) param =
    if equal p.name param.name then param ∷ ps else p ∷ append_after ps param

-- `sipster_sip_parameters_clone`: a fresh copy of each node, linked in the same order.
unfoldable pub parameters_clone : List Parameter → List Parameter
parameters_clone [] = []
parameters_clone (p ∷ ps) = record { name = p.name; value = p.value } ∷ parameters_clone ps
