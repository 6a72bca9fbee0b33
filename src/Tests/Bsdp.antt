-- ===== src/Tests/Bsdp.antt =====
-- dhcpv4/bsdp at concrete images, a concrete server and a client that reaches it.
use dhcp.Prelude.{◌≡◌, refl, true, false, [], ◌∷◌, List, some, ok, arith, elements, replicate, ◌++◌}
use dhcp.Net.{to4, is_loopback}
use dhcp.Uio.Listed.{listed}
use dhcp.Dhcpv4.Packet.{Dhcpv4}
use dhcp.Dhcpv4.Options
use dhcp.Dhcpv4.Options.{Options, empty, update, get}
use dhcp.Dhcpv4.Options.RoundTrip.{IsCarried}
use dhcp.Dhcpv4.Options.Unended.{IsCarried-empty, IsCarried-update, from_bytes_unended}
use dhcp.Dhcpv4.Codes.{option_server_identifier}
use dhcp.Dhcpv4.Getters
use dhcp.Dhcpv4.Getters.{get_ip}
use dhcp.Dhcpv4.Values.{ip_from_bytes}
use dhcp.Dhcpv4.New.{RandomRead, new_packet}
use dhcp.Dhcpv4.Addresses.{Addr, ip_addr, ip_net, get_external_ipv4_addrs}
use dhcp.Bsdp.{
  BootImage, message_type_list, message_type_select, images_from_bytes, images_to_bytes,
  get_vendor_options, selected_boot_image_id,
}
use dhcp.Bsdp.Images.{images_from_bytes-images_to_bytes}
use dhcp.Bsdp.Messages
use dhcp.Bsdp.Messages.{
  ReplyConfig, message_type_from_packet, new_reply_for_inform_list, parse_boot_image_list_from_ack,
  inform_select_for_ack,
}
use dhcp.Bsdp.Replies.{IsConfig, new_reply_for_inform_list_lem}
use dhcp.Bsdp.Informs.{inform_select_for_ack_lem}
use dhcp.Bsdp.Exchange.{Host, exchange}
use dhcp.Bsdp.Exchange.Served.{serve, Setting, exchange-serve}

abbrev an_image : BootImage
an_image = record {
  id = record { is_install = true; image_type = 1; index = 4097 };
  name = 98 ∷ 115 ∷ 100 ∷ [];
}

abbrev another_image : BootImage
another_image = record { id = record { is_install = false; image_type = 2; index = 7 }; name = [] }

images_from_bytes-images_to_bytes_example :
    images_from_bytes listed (elements (images_to_bytes listed (an_image ∷ another_image ∷ [])))
    ≡ ok (an_image ∷ another_image ∷ [])
images_from_bytes-images_to_bytes_example =
    images_from_bytes-images_to_bytes listed (an_image ∷ another_image ∷ [])
      (((omega arith, omega arith), omega arith), (((omega arith, omega arith), omega arith), tt))

-- A value of 300 bytes, which is split.
abbrev two_options : Options
two_options = update 9 (some (replicate 300 7)) (update 1 (some (1 ∷ [])) empty)

two_options-IsCarried : IsCarried two_options
two_options-IsCarried =
    IsCarried-update 9 7 (replicate 299 7) (some (replicate 300 7)) (update 1 (some (1 ∷ [])) empty)
      (omega arith) (omega arith) refl
      (IsCarried-update 1 1 [] (some (1 ∷ [])) empty (omega arith) (omega arith) refl
        IsCarried-empty)

from_bytes_unended_example :
    Options.from_bytes listed (elements (Options.to_bytes listed two_options)) empty
    ≡ (two_options, ok tt)
from_bytes_unended_example = from_bytes_unended listed two_options two_options-IsCarried

-- A loopback address, an IPv6 address, and an IPv4 address in 16 bytes.
abbrev some_addrs : List Addr
some_addrs =
    ip_net (some (127 ∷ 0 ∷ 0 ∷ 1 ∷ []))
    ∷ ip_addr (some (0x20 ∷ 1 ∷ replicate 14 7))
    ∷ ip_net (some (replicate 10 0 ++ 255 ∷ 255 ∷ 10 ∷ 0 ∷ 0 ∷ 7 ∷ []))
    ∷ []

some_addrs-external : get_external_ipv4_addrs some_addrs ≡ some (10 ∷ 0 ∷ 0 ∷ 7 ∷ []) ∷ []
unfolding get_external_ipv4_addrs is_loopback to4
some_addrs-external = refl

abbrev a_read : RandomRead
a_read = record { xid = 1 ∷ 2 ∷ 3 ∷ 4 ∷ []; n = 4; failed = false }

abbrev a_config : ReplyConfig
a_config = record {
  server_ip = some (10 ∷ 0 ∷ 0 ∷ 1 ∷ []);
  server_hostname = 98 ∷ [];
  boot_file_name = 99 ∷ [];
  server_priority = 300;
  images = an_image ∷ another_image ∷ [];
  default_image = some another_image;
  selected_image = some an_image;
}

a_config-IsConfig : IsConfig a_config another_image an_image (another_image ∷ [])
a_config-IsConfig = record {
  has_default = refl;
  default_valid = (omega arith, omega arith);
  has_images = refl;
  images_valid =
      (((omega arith, omega arith), omega arith), (((omega arith, omega arith), omega arith), tt));
}

abbrev an_inform : Dhcpv4
an_inform = new_packet (9 ∷ 8 ∷ 7 ∷ 6 ∷ [])

new_reply_for_inform_list_lem_example :
    (ack : Dhcpv4) × (new_reply_for_inform_list listed a_read an_inform a_config ≡ ok ack)
    × (parse_boot_image_list_from_ack listed ack ≡ ok (an_image ∷ another_image ∷ []))
    × (message_type_from_packet listed ack ≡ message_type_list)
    × (ack.transaction_id ≡ 9 ∷ 8 ∷ 7 ∷ 6 ∷ [])
    × (get option_server_identifier ack.options ≡ to4 (some (10 ∷ 0 ∷ 0 ∷ 1 ∷ [])))
new_reply_for_inform_list_lem_example =
    new_reply_for_inform_list_lem listed a_read (refl, refl) an_inform a_config another_image
      an_image (another_image ∷ []) a_config-IsConfig (omega arith, omega arith)

abbrev an_ack : Dhcpv4
an_ack = record an_inform { options = update 54 (some (10 ∷ 0 ∷ 0 ∷ 1 ∷ [])) empty }

an_ack-server : to4 (Getters.server_identifier listed an_ack) ≡ some (10 ∷ 0 ∷ 0 ∷ 1 ∷ [])
unfolding to4 Getters.server_identifier get_ip get update ip_from_bytes
an_ack-server = refl

-- The reply port 1023 is privileged.
inform_select_for_ack_lem_example :
    (d : Dhcpv4) × (inform_select_for_ack listed a_read an_ack 1023 an_image ≡ ok d)
    × (message_type_from_packet listed d ≡ message_type_select)
    × ((v : Options) × (get_vendor_options listed d.options ≡ some v)
        × (selected_boot_image_id listed v ≡ some an_image.id))
    × (d.transaction_id ≡ 9 ∷ 8 ∷ 7 ∷ 6 ∷ [])
    × (d.client_hw_addr ≡ [])
inform_select_for_ack_lem_example =
    inform_select_for_ack_lem listed a_read (refl, refl) an_ack 1023 an_image 10 (0 ∷ 0 ∷ 1 ∷ [])
      refl an_ack-server (omega arith, omega arith)

-- Its messages reach the server.
abbrev a_host : Host Messages.Error
a_host = record {
  send_socket = ok tt;
  receive_socket = ok tt;
  interface = ok (6 ∷ 5 ∷ 4 ∷ 3 ∷ 2 ∷ 1 ∷ [], some_addrs);
  list_random = a_read;
  select_random = a_read;
  send_receive = λ d t. serve listed a_read a_config d;
}

a-Setting :
    Setting listed a_host a_read a_config
      (6 ∷ 5 ∷ 4 ∷ 3 ∷ 2 ∷ 1 ∷ [])
      some_addrs
      (some (10 ∷ 0 ∷ 0 ∷ 7 ∷ []))
      []
      another_image
      an_image
      an_image
      (another_image ∷ [])
      10
      (0 ∷ 0 ∷ 1 ∷ [])
a-Setting = record {
  send_socket = refl;
  receive_socket = refl;
  interface = refl;
  local = some_addrs-external;
  list_random = (refl, refl);
  select_random = (refl, refl);
  server_random = (refl, refl);
  configured = a_config-IsConfig;
  has_selected = refl;
  selected_valid = (omega arith, omega arith);
  has_server = refl;
  server_four = refl;
  answers = λ d. refl;
}

exchange-serve_example :
    (list ack select last : Dhcpv4) × (exchange listed a_host
      ≡ (list ∷ ack ∷ select ∷ last ∷ [], ok tt))
    × (message_type_from_packet listed list ≡ message_type_list)
    × ((v : Options) × (get_vendor_options listed select.options ≡ some v)
        × (selected_boot_image_id listed v ≡ some an_image.id))
exchange-serve_example = exchange-serve listed a-Setting
