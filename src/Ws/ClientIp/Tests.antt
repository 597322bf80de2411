-- ===== src/Ws/ClientIp/Tests.antt =====
-- A server behind one proxy, 10.0.0.1, that trusts 10.0.0.0/8.
use network_ultra_server.Prelude.{
  ◌≡◌, ◌⊎◌, refl, true, List, [], ◌∷◌, ◌++◌, none, some, ◌==◌, if◌then◌else◌, arith, bytes_eq,
}
use network_ultra_server.Strings.{
  Bytes, has_prefix, index_byte, last_index_byte, contains_byte, cut, split, split_first, join,
  ascii_space, space2, space3, space_width, space_width_back, drop_spaces, trim_space,
  drop_brackets, trim_brackets, equal_fold, lower,
}
use network_ultra_server.Net.{Addr, Prefix, unmap, contains, same_bits, split_host_port, split_at}
use network_ultra_server.Ws.ClientIp.{
  Addresses, plain_addr, parse_remote_ip, parse_forwarded_node, find_for, unquote_forwarded_value,
  parse_element, parse_each, parse_forwarded, parse_x_forwarded_for, split_from, after_byte,
  split_outside_quotes, contains_any, is_trusted_proxy, origin, client_ip,
}
use network_ultra_server.Ws.ClientIp.Walk.{
  last_without, hops, origin-last_without, client_ip_of_hops,
}
use network_ultra_server.Ws.ClientIp.Quotes.{client_ip_of_elements}
use network_ultra_server.Ws.ClientIp.Forwarded.{quote, unquote-quote}
use network_ultra_server.Ws.ClientIp.Printed.{elements, parse_forwarded-element}

-- "10.0.0.1"
abbrev proxy_text : Bytes
proxy_text = b'1' ∷ b'0' ∷ b'.' ∷ b'0' ∷ b'.' ∷ b'0' ∷ b'.' ∷ b'1' ∷ []

-- "::7"
abbrev hop_text : Bytes
hop_text = b':' ∷ b':' ∷ b'7' ∷ []

abbrev proxy_addr : Addr
proxy_addr = record { ip = 10 ∷ 0 ∷ 0 ∷ 1 ∷ []; zone = [] }

abbrev hop_addr : Addr
hop_addr = record {
  ip = 0 ∷ 0 ∷ 0 ∷ 0 ∷ 0 ∷ 0 ∷ 0 ∷ 0 ∷ 0 ∷ 0 ∷ 0 ∷ 0 ∷ 0 ∷ 0 ∷ 0 ∷ 7 ∷ [];
  zone = [];
}

abbrev addresses : Addresses
addresses = record {
  parse_addr = λ text.
      if text == proxy_text
      then some proxy_addr
      else if text == hop_text
      then some hop_addr
      else none;
  addr_text = λ a. a.ip;
}

abbrev trusted : List Prefix
trusted = record { addr = record { ip = 10 ∷ 0 ∷ 0 ∷ 0 ∷ []; zone = [] }; bits = 8 } ∷ []

abbrev remote : Bytes
remote = proxy_text ++ (b':' ∷ b'9' ∷ b'9' ∷ [])

direct : parse_remote_ip addresses remote ≡ some proxy_addr
unfolding parse_remote_ip split_host_port last_index_byte contains_byte index_byte split_at
    plain_addr trim_brackets drop_brackets unmap
direct = refl

is_trusted : is_trusted_proxy trusted proxy_addr ≡ true
unfolding is_trusted_proxy contains_any contains same_bits unmap
is_trusted = refl

hop_is_untrusted : last_without (is_trusted_proxy trusted) (hop_addr ∷ []) ≡ some hop_addr
unfolding is_trusted_proxy contains_any contains same_bits unmap
hop_is_untrusted = refl

-- "10.9.9.9"
abbrev forged : Bytes
forged = b'1' ∷ b'0' ∷ b'.' ∷ b'9' ∷ b'.' ∷ b'9' ∷ b'.' ∷ b'9' ∷ []

hop_read : hops addresses hop_text ≡ some (hop_addr ∷ [])
unfolding split split_first parse_each parse_forwarded_node trim_space drop_spaces space_width
    space_width_back ascii_space space2 space3 equal_fold lower has_prefix contains_byte index_byte
    plain_addr unmap
hop_read = refl

join_one : (s : Bytes) → join (s ∷ []) b',' ≡ s
unfolding join
join_one s = refl

client_ip_of_hops_example :
    (client_ip addresses trusted remote [] ((forged ++ (b',' ∷ hop_text)) ∷ []) ≡ hop_addr.ip)
    ⊎ ((parse_x_forwarded_for addresses ((forged ++ (b',' ∷ hop_text)) ∷ []) ≡ none)
        × (client_ip addresses trusted remote [] ((forged ++ (b',' ∷ hop_text)) ∷ [])
            ≡ proxy_addr.ip))
client_ip_of_hops_example =
    client_ip_of_hops addresses trusted remote forged hop_text ((forged ++ (b',' ∷ hop_text)) ∷ [])
      proxy_addr hop_addr (hop_addr ∷ []) direct is_trusted (omega arith)
      (join_one (forged ++ (b',' ∷ hop_text))) hop_read hop_is_untrusted

-- An open quote.
abbrev opening : Bytes
opening = b'f' ∷ b'o' ∷ b'r' ∷ b'=' ∷ b'"' ∷ b'x' ∷ []

abbrev hop_element : Bytes
hop_element = b'f' ∷ b'o' ∷ b'r' ∷ b'=' ∷ hop_text

hop_split : split_outside_quotes hop_element b',' ≡ some (hop_element ∷ [])
unfolding split_outside_quotes split_from after_byte trim_space drop_spaces space_width
    space_width_back ascii_space space2 space3
hop_split = refl

hop_parsed : parse_each (parse_element addresses) (hop_element ∷ []) ≡ some (hop_addr ∷ [])
unfolding parse_each parse_element split_outside_quotes split_from after_byte find_for cut
    unquote_forwarded_value parse_forwarded_node trim_space drop_spaces space_width space_width_back
    ascii_space space2 space3 equal_fold lower has_prefix contains_byte index_byte plain_addr unmap
hop_parsed = refl

client_ip_of_elements_example :
    (client_ip addresses trusted remote ((opening ++ (b',' ∷ hop_element)) ∷ []) [] ≡ hop_addr.ip)
    ⊎ ((parse_forwarded addresses ((opening ++ (b',' ∷ hop_element)) ∷ []) ≡ none)
        × (client_ip addresses trusted remote ((opening ++ (b',' ∷ hop_element)) ∷ []) []
            ≡ proxy_addr.ip))
client_ip_of_elements_example =
    client_ip_of_elements addresses trusted remote opening hop_element
      ((opening ++ (b',' ∷ hop_element)) ∷ []) [] (hop_element ∷ []) proxy_addr hop_addr
      (hop_addr ∷ []) direct is_trusted (omega arith) (join_one (opening ++ (b',' ∷ hop_element)))
      (refl, (refl, (refl, (refl, (refl, (refl, (refl, tt))))))) hop_split hop_parsed
      hop_is_untrusted

origin-last_without_example :
    origin trusted proxy_addr (some (hop_addr ∷ proxy_addr ∷ []))
    ≡ (elim (last_without (is_trusted_proxy trusted) (hop_addr ∷ proxy_addr ∷ [])) [
      | some a ↦ a
      | none ↦ hop_addr
    ])
origin-last_without_example = origin-last_without trusted proxy_addr hop_addr (proxy_addr ∷ [])

unquote-quote_example :
    unquote_forwarded_value (quote (b'a' ∷ b'"' ∷ b'\\' ∷ [])) ≡ some (b'a' ∷ b'"' ∷ b'\\' ∷ [])
unquote-quote_example = unquote-quote (b'a' ∷ b'"' ∷ b'\\' ∷ []) (refl, (refl, (refl, tt)))

node_read : parse_forwarded_node addresses hop_text ≡ some hop_addr
unfolding parse_forwarded_node trim_space drop_spaces space_width space_width_back ascii_space
    space2 space3 equal_fold lower has_prefix contains_byte index_byte plain_addr unmap
node_read = refl

abbrev written : List (Bytes × Addr)
written = (hop_text, hop_addr) ∷ (hop_text, hop_addr) ∷ []

parse_forwarded-element_example :
    parse_forwarded addresses (elements written) ≡ some (hop_addr ∷ hop_addr ∷ [])
parse_forwarded-element_example =
    parse_forwarded-element addresses (hop_text, hop_addr) ((hop_text, hop_addr) ∷ [])
      (((refl, (refl, (refl, tt))), node_read), (((refl, (refl, (refl, tt))), node_read), tt))
