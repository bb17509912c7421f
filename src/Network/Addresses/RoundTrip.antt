-- ===== src/Network/Addresses/RoundTrip.antt =====
-- src/network/network.cpp, class `address`: what is printed is read back.
use octopusmq_cpp.Base.{
  ℕ, ◌+◌, ◌-◌, ◌^◌, ◌≤◌, ◌<◌, ◌≡◌, ◌≢◌, refl, ap, true, false, none, some, [], ◌∷◌, ◌++◌, ltb, Text,
  is_empty, length, take_all, take-append, drop-append_next, All, arith,
}
use octopusmq_cpp.Error.{returns, ◌>>=◌}
use octopusmq_cpp.Network.{Address}
use octopusmq_cpp.Numerals.{decimal, to_uint32, of_uint32, print_int, stoi}
use octopusmq_cpp.Numerals.Digits.{IsDigit, Prints, decimal-Prints, length-decimal}
use octopusmq_cpp.Numerals.RoundTrip.{stoi_digits}
use octopusmq_cpp.Network.Addresses.{
  Inet, inet_addrstrlen, max_port_strlen, find_last_of, to_ip, address_string, to_string,
}

digits_no_colon : (s : Text) → All IsDigit s → find_last_of b':' s ≡ none
digits_no_colon [] h = refl
digits_no_colon (c ∷ s) h = rw (digits_no_colon s h.1) (ground arith)

-- The last colon of a text that goes on with a colon and no other.
find_last_of-middle :
    (s t : Text) → find_last_of b':' t ≡ none → find_last_of b':' (s ++ b':' ∷ t) ≡ some (length s)
find_last_of-middle [] t h = rw h refl
find_last_of-middle (c ∷ s) t h = rw (find_last_of-middle s t h) refl

not_empty : (s : Text) → s ≢ [] → is_empty s ≡ false
not_empty [] h = absurd (h refl)
not_empty (c ∷ s) h = refl

some_empty : (s : Text) → 1 ≤ length s → is_empty s ≡ false
some_empty [] h = absurd (omega arith)
some_empty (c ∷ s) h = refl

stoi-decimal :
    (n : ℕ)
    → n < 10 ^ 6
    → stoi (decimal n) ≡ returns (record { is_negative = false; magnitude = n })
stoi-decimal n h = stoi_digits (decimal n) n (decimal-Prints n) (omega arith)

module _ (inet : Inet) where
  -- Reading a text with an address, a colon and a port.
  address_string-colon :
      (t digits : Text) (ip port : ℕ) (before : Address)
      → inet.pton t ≡ some ip
      → t ≢ []
      → Prints port digits
      → stoi digits ≡ returns (record { is_negative = false; magnitude = port })
      → address_string inet (t ++ b':' ∷ digits) before ≡ returns (record { ip = ip; port = port })
  unfolding address_string to_ip to_uint32 ◌>>=◌
  address_string-colon t digits ip port before read full prints number =
      let found = find_last_of-middle t digits (digits_no_colon digits prints.digits) in
      let no_text : is_empty t ≡ false = not_empty t full in
      let some_port : is_empty digits ≡ false = some_empty digits prints.some_digit in
      rw
        (
          address_string,
          found,
          take-append t (b':' ∷ digits),
          drop-append_next t digits b':',
          some_port,
          number,
          to_ip,
          no_text,
          read,
        )
        refl

  -- What `snprintf` writes fits in the buffer where the port has at most six digits.
  to_string_fits :
      (t : Text) (a : Address)
      → inet.ntop a.ip ≡ some t
      → length t ≤ 15
      → a.port < 10 ^ 6
      → to_string inet a ≡ returns (t ++ b':' ∷ decimal a.port)
  unfolding to_string print_int of_uint32
  to_string_fits t a shown short small =
      let few : length (decimal a.port) ≤ 6 = length-decimal 5 a.port small in
      let low : ltb a.port (2 ^ 31) ≡ true = ground arith in
      rw (to_string, shown, low)
        (ap (λ x. returns (t ++ x))
          (take_all (inet_addrstrlen + 1 + max_port_strlen - length t - 1) (b':' ∷ decimal a.port)
            (omega arith)))

  -- Whatever is stored before, `address_string` reads back what `to_string` prints for an address
  -- of 32 bits and a port of at most six digits.
  pub address_string-to_string :
      (a before : Address)
      → a.ip < 2 ^ 32
      → a.port < 10 ^ 6
      → (s : Text) × (to_string inet a ≡ returns s) × (address_string inet s before ≡ returns a)
  address_string-to_string a before ip port =
      let (t, shown, read, full, short, no_colon) = inet.ntop_lem a.ip ip in
      (
        t ++ b':' ∷ decimal a.port,
        to_string_fits t a shown short port,
        address_string-colon t (decimal a.port) a.ip a.port before read full (decimal-Prints a.port)
            (stoi-decimal a.port port),
      )
