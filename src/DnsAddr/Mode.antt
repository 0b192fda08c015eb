-- ===== src/DnsAddr/Mode.antt =====
-- dnsaddr.go: ParseDNSAddrResolution, parseAddrFilter, withAddrFilter and what a request does with
-- a /dnsaddr.
use someguy.Prelude.{
  Bool, ◌&&◌, ◌||◌, not, Option, none, some, any_of, if◌then◌else◌, map, is_empty,
}
use someguy.Prelude.Bytes.{Bytes, codes, same, ascii_lower_byte, has_prefix, split_on}

-- DNSAddrResolution. `unset` is the zero value "" and any other text.
pub data DnsAddrResolution : Type 0 where
  append_mode replace_mode filtered_mode never_mode unset : DnsAddrResolution

-- none is the error for an invalid mode.
unfoldable pub parse_dns_addr_resolution : Bytes → Option DnsAddrResolution
parse_dns_addr_resolution s =
    if same s (codes "append")
    then some append_mode
    else if same s (codes "replace")
    then some replace_mode
    else if same s (codes "filtered")
    then some filtered_mode
    else if same s (codes "never")
    then some never_mode
    else none

pub record AddrFilter : Type 0 where
  pub matches_dns_addr : Bool

-- strings.ToLower is modelled on ASCII letters: no other letter has a lower case in "dnsaddr".
unfoldable pub parse_addr_filter : Bytes → AddrFilter
parse_addr_filter param = record {
  matches_dns_addr = any_of (same (codes "dnsaddr")) (split_on b',' (map ascii_lower_byte param));
}

pub data DnsAddrAction : Type 0 where
  skip replace append : DnsAddrAction

unfoldable pub filter_action : AddrFilter → DnsAddrAction
filter_action f = if f.matches_dns_addr then append else replace

-- withAddrFilter: what the request context carries for a path and the value of filter-addrs.
unfoldable pub with_addr_filter : Bytes → Bytes → Option AddrFilter
with_addr_filter path filter_addrs =
    let filtered =
      has_prefix path (codes "/routing/v1/providers/")
      || has_prefix path (codes "/routing/v1/peers/") in
    if not (is_empty filter_addrs) && filtered then some (parse_addr_filter filter_addrs) else none

-- DNSAddrResolution.action; the second argument is ctx.Value(addrFilterCtxKey{}).
unfoldable pub action : DnsAddrResolution → Option AddrFilter → DnsAddrAction
unfolding filter_action
action never_mode f = skip
action filtered_mode (some f) = filter_action f
action filtered_mode none = skip
action replace_mode (some f) = filter_action f
action replace_mode none = replace
action mode (some f) = filter_action f
action mode none = append
