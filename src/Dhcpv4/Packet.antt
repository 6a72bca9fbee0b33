-- ===== src/Dhcpv4/Packet.antt =====
-- dhcpv4/dhcpv4.go: the packet and its codec.
pub mod Layout
pub mod RoundTrip
pub mod Safety
use dhcp.Prelude.{
  ℕ, zero, suc, ◌+◌, ◌*◌, ◌/◌, ◌%◌, ◌^◌, ◌≡◌, ◌-◌, refl, Bool, true, false, not, ◌&&◌, ◌||◌, List,
  [], ◌∷◌, ◌++◌, Option, none, some, leb, ltb, ◌==◌, if◌then◌else◌, length, take, drop, replicate,
  Bytes, Slice, elements, Result, ok, err, fault, panic, ◌>>=◌, equal,
}
use dhcp.Uio.{Uio}
use dhcp.Dhcpv4.Options
use dhcp.Dhcpv4.Options.{empty}
use dhcp.Dhcpv4.Codes.{hw_type_ethernet, option_end}

abbrev pub max_hw_addr_len : ℕ
max_hw_addr_len = 16

abbrev pub magic_cookie : Bytes
magic_cookie = 99 ∷ 130 ∷ 83 ∷ 99 ∷ []

-- A `nil` options map is read and written as an empty one.
pub record Dhcpv4 : Type 0 where
  pub op_code : ℕ
  pub hw_type : ℕ
  pub hop_count : ℕ
  pub transaction_id : Bytes
  pub num_seconds : ℕ
  pub flags : ℕ
  pub client_ip_addr : Slice
  pub your_ip_addr : Slice
  pub server_ip_addr : Slice
  pub gateway_ip_addr : Slice
  pub client_hw_addr : Bytes
  pub server_host_name : Bytes
  pub boot_file_name : Bytes
  pub options : Options.Options

-- A failed read, another cookie, and an error of the options.
pub data Error : Type 0 where
  short_packet bad_cookie : Error
  bad_options : Options.Error → Error

-- `string(b[:strings.Index(string(b), "\x00")])`, or all of `b` if it has no NUL.
unfoldable pub until_nul : Bytes → Bytes
until_nul [] = []
until_nul (b ∷ bs) = let rest = until_nul bs in if b == 0 then [] else b ∷ rest

-- `copy(field[:], text); field[len(text)] = 0` on a zeroed array of `n` bytes: an index that is out
-- of range panics.
unfoldable pub text_field : ℕ → Bytes → Result Error Bytes
text_field n text =
    if ltb (length text) n then ok (text ++ replicate (n - length text) 0) else fault panic

-- The length byte for the hardware address.
unfoldable pub hw_addr_len : Dhcpv4 → ℕ
hw_addr_len d =
    let hlen = length d.client_hw_addr % 256 in
    if hlen == 0 && d.hw_type == hw_type_ethernet then 6 else hlen

-- The packet that the fields before the options make, the hardware address cut to its length and
-- the texts at their first NUL. `p.ClientHWAddr[:hwAddrLen]` panics beyond the 16 bytes made for it.
unfoldable pub fixed_part :
    ℕ
    → ℕ
    → ℕ
    → ℕ
    → Bytes
    → ℕ
    → ℕ
    → Slice × Slice × Slice × Slice
    → Bytes
    → Bytes
    → Bytes
    → Result Error Dhcpv4
fixed_part op_code hw_type hw_len hop_count xid num_seconds flags ips hw_addr sname file =
    let (client_ip, your_ip, server_ip, gateway_ip) = ips in
    let n = if ltb 16 hw_len then 16 else hw_len in
    if leb n 16
    then ok (record {
      op_code = op_code;
      hw_type = hw_type;
      hop_count = hop_count;
      transaction_id = xid;
      num_seconds = num_seconds;
      flags = flags;
      client_ip_addr = client_ip;
      your_ip_addr = your_ip;
      server_ip_addr = server_ip;
      gateway_ip_addr = gateway_ip;
      client_hw_addr = take n hw_addr;
      server_host_name = until_nul sname;
      boot_file_name = until_nul file;
      options = empty;
    })
    else fault panic

module _ (u : Uio) where
  open u use {Lexer}

  -- What is left when the fixed part of the packet has been read.
  unfoldable pub finish_packet : Dhcpv4 → Bytes → Lexer → Result Error Dhcpv4
  finish_packet p cookie buf =
      let (o, result) = Options.from_bytes_check_end u (elements (u.contents buf)) true empty in
      let parsed : Result Error Dhcpv4 = elim result [
        | ok _ ↦ ok (record p { options = o })
        | err e ↦ err (bad_options e)
        | fault x ↦ fault x
      ] in
      if u.failed buf
      then err short_packet
      else if not (equal cookie magic_cookie)
      then err bad_cookie
      else parsed

  unfoldable pub from_bytes : Bytes → Result Error Dhcpv4
  from_bytes q =
      let (op_code, b₁) = u.read8 (u.new q) in
      let (hw_type, b₂) = u.read8 b₁ in
      let (hw_len, b₃) = u.read8 b₂ in
      let (hop_count, b₄) = u.read8 b₃ in
      let (xid, b₅) = u.read_bytes 4 b₄ in
      let (num_seconds, b₆) = u.read16 b₅ in
      let (flags, b₇) = u.read16 b₆ in
      let (client_ip, b₈) = u.copy_n 4 b₇ in
      let (your_ip, b₉) = u.copy_n 4 b₈ in
      let (server_ip, b₁₀) = u.copy_n 4 b₉ in
      let (gateway_ip, b₁₁) = u.copy_n 4 b₁₀ in
      let (hw_addr, b₁₂) = u.read_bytes 16 b₁₁ in
      let (sname, b₁₃) = u.read_bytes 64 b₁₂ in
      let (file, b₁₄) = u.read_bytes 128 b₁₃ in
      let (cookie, b₁₅) = u.read_bytes 4 b₁₄ in
      fixed_part op_code hw_type hw_len hop_count xid num_seconds flags
        (client_ip, your_ip, server_ip, gateway_ip) hw_addr sname file
      >>= λ p. finish_packet p cookie b₁₅

  -- `ip[:net.IPv4len]`: a slice that is shorter panics, its capacity being its length.
  unfoldable pub write_ip : Slice → Lexer → Result Error Lexer
  write_ip none b = ok (u.write_bytes (replicate 4 0) b)
  write_ip (some ip) b = if ltb (length ip) 4 then fault panic else ok (u.write_bytes (take 4 ip) b)

  unfoldable pub to_bytes : Dhcpv4 → Result Error Slice
  unfolding write_ip text_field hw_addr_len
  to_bytes d = do
    let b₁ = u.write8 d.hw_type (u.write8 d.op_code (u.new []))
    let b₂ = u.write_bytes d.transaction_id (u.write8 d.hop_count (u.write8 (hw_addr_len d) b₁))
    let b₃ = u.write16 d.flags (u.write16 d.num_seconds b₂)
    b₄ ← write_ip d.client_ip_addr b₃
    b₅ ← write_ip d.your_ip_addr b₄
    b₆ ← write_ip d.server_ip_addr b₅
    b₇ ← write_ip d.gateway_ip_addr b₆
    let b₈ = u.write_copy 16 d.client_hw_addr b₇
    sname ← text_field 64 d.server_host_name
    file ← text_field 128 d.boot_file_name
    let b₉ = u.write_bytes magic_cookie (u.write_bytes file (u.write_bytes sname b₈))
    ok (u.contents (u.write8 option_end (Options.marshal u d.options b₉)))
