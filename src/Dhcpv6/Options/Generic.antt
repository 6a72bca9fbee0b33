-- ===== src/Dhcpv6/Options/Generic.antt =====
-- dhcpv6/options.go: `OptionGeneric`, the option of every code that has no parser of its own.
use dhcp.Prelude.{ℕ, ◌<◌, ◌≡◌, refl, Bytes, elements, ok, length, ap, sym, ok-injective, arith}
use dhcp.Dhcpv6.Options.{Kind}
use dhcp.Dhcpv6.Options.RoundTrip.{IsCodec, IsSound}
use dhcp.Dhcpv6.Options.Termination.{Stops}

pub record OptionGeneric : Type 0 where
  pub option_code : ℕ
  pub option_data : Bytes

-- `Code`, `ToBytes`, and the default case of `ParseOption`, which cannot fail.
unfoldable pub generic : Kind (Unit {0}) OptionGeneric
generic = record {
  code = λ o. o.option_code;
  value = λ o. o.option_data;
  parse = λ c d. ok (record { option_code = c; option_data = elements d });
}

-- It is a codec, for codes and lengths of 16 bits.
unfoldable pub generic-IsCodec : IsCodec generic
unfolding generic
generic-IsCodec = record {
  IsValid = λ o. (o.option_code < 65536) × (length o.option_data < 65536);
  code_word = λ o h. h.0;
  value_fits = λ o h. h.1;
  parse_value = λ o h. refl;
}

unfoldable pub generic-IsSound : IsSound generic generic-IsCodec
unfolding generic generic-IsCodec
generic-IsSound = record {
  parse_sound = λ c d o hc hd byte e.
      let q = ok-injective e in
      let same_code : c ≡ o.option_code = ap (λ x. x.option_code) q in
      let same_data : d ≡ o.option_data = ap (λ x. x.option_data) q in
      ((omega arith, omega (arith, ap length same_data)), sym same_code, sym same_data);
}

unfoldable pub generic-Stops : (n : ℕ) → Stops generic n
unfolding generic
generic-Stops n = record { parse-ne-fault = λ c d x h e. cc }
