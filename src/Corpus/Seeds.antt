-- ===== src/Corpus/Seeds.antt =====
-- `seed_inputs` of normalize-corpus-flags.py. What is computed when the module is loaded may raise, so
-- a seed is a result, and so is the list of all.
mod Build
mod Pages
mod Scripts
mod Routes
mod Tunnels
mod Backends
mod Fields
mod Chains
mod Http2
pub mod Accepted
use lighttpd_fuzz.Base.{List, [], ◌∷◌, ◌++◌, map, concat, flat_map, Result, ok, true}
use lighttpd_fuzz.Base.Bytes.{Bytes, codes}
use lighttpd_fuzz.Corpus.Packets.{multipacket}
use lighttpd_fuzz.Corpus.Http2.{h2_request_headers}
use lighttpd_fuzz.Corpus.Seeds.Build.{flagged, written, joined, sequence}
use lighttpd_fuzz.Corpus.Seeds.Scripts.{
  basic_user_auth_request, cgi_chunked_trailer, cgi_expect_headers, cgi_get, cgi_post, cgi_redirect,
  cgi_status, cgi_stream, cgi_xsendfile, digest_auth_request, digest_challenge_request,
  invalid_basic_auth_request, invalid_transfer_length, ssi_request,
}
use lighttpd_fuzz.Corpus.Seeds.Pages.{
  absolute_uri, alias_request, conditional_get, conditions_request, dirlist_html, dirlist_json,
  evhost_request, forwarded_request, get_file, get_keepalive, get_root, h2c_upgrade, head_root,
  http10_range, if_range, multi_range, options, private_auth_request, private_request,
  range_request, redirect_request, rewrite_request, status_request, unsatisfiable_range,
  userdir_request, vhost_fallback_request, vhost_request, webdav_chunked_put, webdav_put,
}
use lighttpd_fuzz.Corpus.Seeds.Routes.{
  condition_routing_requests, deflate_requests, static_profile_requests, url_normalization_requests,
  userdir_edge_requests, webdav_copy, webdav_delete, webdav_mkcol, webdav_move, webdav_options,
  webdav_partial_put, webdav_propfind, webdav_propfind_infinity,
}
use lighttpd_fuzz.Corpus.Seeds.Backends.{
  backend_connect_tunnel_requests, backend_fastcgi_post_headers, backend_fastcgi_requests,
  backend_gateway_requests, backend_gateway_upgrade_request, backend_proxy_requests,
  backend_scgi_post_headers, backend_scgi_requests, backend_upgrade_request, legacy_proxy_requests,
  proxy_requests, wstunnel_backend_frame,
}
use lighttpd_fuzz.Corpus.Seeds.Fields.{
  accesslog_fields_request, admin_requests, cgi_dense_headers, chunked_extension_request,
  forwarded_chain_requests, forwarded_ipv6_request, haproxy_v1_tcp6_forwarded,
  routing_interaction_requests, ssi_edge_requests, ssi_exec_request, stack_requests,
  status_variant_requests,
}
use lighttpd_fuzz.Corpus.Seeds.Http2.{
  h2_auth_webdav_put, h2_backend_fastcgi_requests, h2_backend_proxy_requests,
  h2_backend_scgi_requests, h2_connection_preface, h2_continuation, h2_control_frames,
  h2_expect_continue, h2_expect_data, h2_expect_headers, h2_get_cgi, h2_get_normalized,
  h2_get_proxy, h2_get_root, h2_get_status, h2_lifecycle_frames, h2_multi_stream, h2_padded_data,
  h2_preface, h2_put, h2_request_trailers, h2_settings, h2_static_cache_requests, h2_wstunnel_data,
  h2_wstunnel_headers, h2_wstunnel_request,
}
use lighttpd_fuzz.Corpus.Seeds.Chains.{
  chunked_fragment_packets, connect_tunnel_requests, deflate_cache_requests, listing_cache_requests,
  webdav_lifecycle_requests, webdav_partial_put_requests, webdav_tree_requests,
}
use lighttpd_fuzz.Corpus.Seeds.Tunnels.{
  connect_request, get_with_body, haproxy_v1_get, haproxy_v1_unknown, haproxy_v2_get,
  haproxy_v2_tlv_get, malformed_host_request, missing_host_request, missing_request,
  oversized_request_field, status_statistics_request, websocket_upgrade, wstunnel_upgrade,
}

abbrev pub single_packets : List (Result Bytes)
single_packets =
    flagged 0 (ok get_root)
    ∷ flagged 1 (ok get_root)
    ∷ flagged 0 (ok get_file)
    ∷ flagged 0 (ok options)
    ∷ flagged 0 (ok head_root)
    ∷ flagged 0 (ok range_request)
    ∷ flagged 0 (ok forwarded_request)
    ∷ flagged 0 (ok private_request)
    ∷ flagged 0 (ok private_auth_request)
    ∷ flagged 0 (ok status_request)
    ∷ flagged 0 (ok alias_request)
    ∷ flagged 0 (ok redirect_request)
    ∷ flagged 0 (ok rewrite_request)
    ∷ flagged 0 (ok webdav_put)
    ∷ flagged 1 (ok webdav_chunked_put)
    ∷ flagged 0 h2_preface
    ∷ flagged 0 (ok h2c_upgrade)
    ∷ flagged 0 (ok http10_range)
    ∷ flagged 0 (ok multi_range)
    ∷ flagged 0 (ok unsatisfiable_range)
    ∷ flagged 0 (ok if_range)
    ∷ flagged 0 (ok conditional_get)
    ∷ flagged 0 (ok absolute_uri)
    ∷ flagged 0 (ok dirlist_html)
    ∷ flagged 0 (ok dirlist_json)
    ∷ flagged 0 (ok conditions_request)
    ∷ flagged 0 (ok vhost_request)
    ∷ flagged 0 (ok vhost_fallback_request)
    ∷ flagged 0 (ok evhost_request)
    ∷ flagged 0 (ok userdir_request)
    ∷ flagged 0 (ok ssi_request)
    ∷ flagged 0 (ok cgi_get)
    ∷ flagged 0 (ok cgi_status)
    ∷ flagged 0 (ok cgi_redirect)
    ∷ flagged 0 (ok cgi_xsendfile)
    ∷ flagged 0 (ok cgi_stream)
    ∷ flagged 0 (ok cgi_post)
    ∷ flagged 0 (ok cgi_chunked_trailer)
    ∷ flagged 0 (ok invalid_transfer_length)
    ∷ flagged 0 (ok digest_challenge_request)
    ∷ flagged 0 (ok digest_auth_request)
    ∷ flagged 0 (ok basic_user_auth_request)
    ∷ flagged 0 (ok invalid_basic_auth_request)
    ∷ flagged 0 (ok webdav_options)
    ∷ flagged 0 (ok webdav_propfind)
    ∷ flagged 0 (ok webdav_propfind_infinity)
    ∷ flagged 0 (ok webdav_mkcol)
    ∷ flagged 0 (ok webdav_copy)
    ∷ flagged 0 (ok webdav_move)
    ∷ flagged 0 (ok webdav_delete)
    ∷ flagged 0 (ok webdav_partial_put)
    ∷ flagged 0 (ok missing_request)
    ∷ flagged 0 (ok malformed_host_request)
    ∷ flagged 0 (ok missing_host_request)
    ∷ flagged 0 (ok oversized_request_field)
    ∷ flagged 0 (ok get_with_body)
    ∷ flagged 0 (ok status_statistics_request)
    ∷ flagged 0 (ok websocket_upgrade)
    ∷ flagged 0 (ok wstunnel_upgrade)
    ∷ flagged 0 (ok connect_request)
    ∷ flagged 0 (ok haproxy_v1_get)
    ∷ flagged 0 (ok haproxy_v1_unknown)
    ∷ flagged 0 haproxy_v2_get
    ∷ flagged 0 haproxy_v2_tlv_get
    ∷ flagged 0 (ok haproxy_v1_tcp6_forwarded)
    ∷ flagged 0 h2_get_root
    ∷ flagged 0 h2_get_status
    ∷ flagged 0 h2_control_frames
    ∷ flagged 0 h2_put
    ∷ flagged 0 h2_get_cgi
    ∷ flagged 0 h2_get_proxy
    ∷ flagged 0 h2_get_normalized
    ∷ flagged 0 h2_continuation
    ∷ flagged 0 h2_lifecycle_frames
    ∷ flagged 0 h2_multi_stream
    ∷ flagged 0 h2_expect_continue
    ∷ flagged 0 h2_request_trailers
    ∷ flagged 0 h2_padded_data
    ∷ flagged 0 h2_wstunnel_request
    ∷ flagged 0 h2_auth_webdav_put
    ∷ flagged 0 (ok chunked_extension_request)
    ∷ flagged 0 (ok forwarded_ipv6_request)
    ∷ flagged 0 cgi_dense_headers
    ∷ flagged 0 (ok accesslog_fields_request)
    ∷ flagged 0 (ok ssi_exec_request)
    ∷ []

abbrev pub request_groups : List (List (Result Bytes))
request_groups =
    map (λ request. flagged 0 (ok request)) condition_routing_requests
    ∷ map (λ request. flagged 0 (ok request)) url_normalization_requests
    ∷ map (λ request. flagged 0 (ok request)) static_profile_requests
    ∷ map (λ request. flagged 0 (ok request)) userdir_edge_requests
    ∷ map (λ request. flagged 0 (ok request)) deflate_requests
    ∷ map (λ request. flagged 0 (ok request)) proxy_requests
    ∷ map (λ request. flagged 0 (ok request)) backend_proxy_requests
    ∷ map (λ request. flagged 0 (ok request)) backend_gateway_requests
    ∷ map (λ request. flagged 0 (ok request)) legacy_proxy_requests
    ∷ map (λ request. flagged 0 (ok request)) backend_fastcgi_requests
    ∷ map (λ request. flagged 0 (ok request)) backend_scgi_requests
    ∷ map (λ request. flagged 0 request) h2_backend_proxy_requests
    ∷ map (λ request. flagged 0 request) h2_backend_fastcgi_requests
    ∷ map (λ request. flagged 0 request) h2_backend_scgi_requests
    ∷ map (λ request. flagged 0 (ok request)) forwarded_chain_requests
    ∷ map (λ request. flagged 0 (ok request)) admin_requests
    ∷ map (λ request. flagged 0 (ok request)) status_variant_requests
    ∷ map (λ request. flagged 0 (ok request)) stack_requests
    ∷ map (λ request. flagged 0 (ok request)) ssi_edge_requests
    ∷ map (λ request. flagged 0 (ok request)) routing_interaction_requests
    ∷ map (λ request. flagged 0 request) h2_static_cache_requests
    ∷ []

abbrev pub packet_groups : List (List (Result Bytes))
packet_groups =
    map (λ flags. multipacket flags (get_keepalive ∷ get_file ∷ [])) (2 ∷ 3 ∷ 6 ∷ 7 ∷ [])
    ∷ map (λ flags. multipacket flags (cgi_expect_headers ∷ codes "seed" ∷ [])) (2 ∷ 3 ∷ 6 ∷ 7 ∷ [])
    ∷ map
        (λ flags.
          written flags (h2_preface ∷ h2_request_headers (codes "GET") (codes "/") true [] 1 ∷ []))
        (2 ∷ 3 ∷ 6 ∷ 7 ∷ [])
    ∷ map (λ flags. multipacket flags webdav_lifecycle_requests) (2 ∷ 6 ∷ 7 ∷ [])
    ∷ map (λ flags. multipacket flags webdav_tree_requests) (6 ∷ 7 ∷ [])
    ∷ map (λ flags. multipacket flags webdav_partial_put_requests) (6 ∷ 7 ∷ [])
    ∷ map (λ flags. multipacket flags chunked_fragment_packets) (2 ∷ 3 ∷ [])
    ∷ map (λ flags. multipacket flags connect_tunnel_requests) (6 ∷ 7 ∷ [])
    ∷ map (λ flags. multipacket flags backend_connect_tunnel_requests) (6 ∷ 7 ∷ [])
    ∷ map (λ flags. multipacket flags (backend_upgrade_request ∷ codes "proxy-upgrade-echo" ∷ []))
        (6 ∷ 7 ∷ [])
    ∷ map
        (λ flags.
          multipacket flags (backend_gateway_upgrade_request ∷ codes "gateway-upgrade-echo" ∷ []))
        (6 ∷ 7 ∷ [])
    ∷ map (λ flags. written flags (ok wstunnel_upgrade ∷ wstunnel_backend_frame ∷ [])) (6 ∷ 7 ∷ [])
    ∷ map (λ flags. written flags (h2_wstunnel_headers ∷ h2_wstunnel_data ∷ [])) (6 ∷ 7 ∷ [])
    ∷ flat_map
        (λ headers. map (λ flags. multipacket flags (headers ∷ codes "seed" ∷ [])) (2 ∷ 3 ∷ []))
        (backend_fastcgi_post_headers ∷ backend_scgi_post_headers ∷ [])
    ∷ map
        (λ flags.
          multipacket flags (
            codes "PROXY TCP6 2001:db8::10 2001:db8::20 12345 80\r\n"
            ∷ forwarded_ipv6_request
            ∷ []))
        (2 ∷ 3 ∷ [])
    ∷ (multipacket 6 listing_cache_requests ∷ [])
    ∷ (multipacket 6 deflate_cache_requests ∷ [])
    ∷ map
        (λ flags. written flags (
          ok h2c_upgrade
          ∷ joined (ok h2_connection_preface ∷ h2_settings ∷ [])
          ∷ h2_request_headers (codes "GET") (codes "/files/index.txt") true [] 3
          ∷ []))
        (6 ∷ 7 ∷ [])
    ∷ map (λ flags. written flags (h2_expect_headers ∷ h2_expect_data ∷ [])) (6 ∷ 7 ∷ [])
    ∷ []

-- All seeds, in the order of the list.
unfoldable pub seed_inputs : Result (List Bytes)
seed_inputs = sequence (single_packets ++ (concat request_groups ++ concat packet_groups))
