-- ===== src/Sip/Address/Fuel.antt =====
-- No address runs its parse out of fuel: it has no loop on fuel.
use sipster.Base.{ℕ, Option, none, some, InFuel, >>=-InFuel, Bytes, arith}
use sipster.Text.{strncpy_bare}
use sipster.Sip.Address.{
  Address, zeroed, split_address, fill_address, fill_if_split, address_parse_in_place,
  address_parse,
}

pub strncpy_bare-InFuel : (cap : ℕ) (s : Bytes) → InFuel (strncpy_bare cap s)
unfolding strncpy_bare
strncpy_bare-InFuel cap s = ground arith

fill_address-InFuel : (name uri : Bytes) (a : Address) → InFuel (fill_address name uri a)
unfolding fill_address
fill_address-InFuel name uri a = >>=-InFuel _ _ (strncpy_bare-InFuel 256 name) (λ n. tt)

fill_if_split-InFuel : (o : Option (Bytes × Bytes)) (a : Address) → InFuel (fill_if_split o a)
unfolding fill_if_split
fill_if_split-InFuel none a = tt
fill_if_split-InFuel (some (name, uri)) a =
    >>=-InFuel _ _ (fill_address-InFuel name uri a) (λ b. tt)

pub address_parse-InFuel : (s : Bytes) → InFuel (address_parse s)
unfolding address_parse address_parse_in_place
address_parse-InFuel s = fill_if_split-InFuel (split_address s) zeroed
