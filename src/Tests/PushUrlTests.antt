-- ===== src/Tests/PushUrlTests.antt =====
-- The validator of src/core/SLSPushUrlValidator.cpp, on the URL `srt://a?streamid={stream_name}`.
use irl_srt_server.Prelude.{ℕ, ◌≡◌, refl, true, false, some, List, [], ◌∷◌, ◌++◌}
use irl_srt_server.Prelude.Int.{pos}
use irl_srt_server.Prelude.Keyed.{same_key}
use irl_srt_server.PushUrl.{
  AppConf, Net, Url, ok, srt, streamid, stand_in, validate_push_url, check_url, vet_all, vet,
  hand_over, judge, resolve, collect_addrinfo, addr_matches_any, scheme_allowed, lists_scheme,
  next_word, skip_separators, has_streamid,
}
use irl_srt_server.PushUrl.Template.{
  token, has_stray_brace, has_brace, substitute_stream_name, substitute_from, is_at_token,
}
use irl_srt_server.PushUrl.Address.{
  Addr, v4, v6, is_internal, categorize_addr, is_loopback_v4, is_link_local_v4, is_private_v4,
  ipv4_in_cidr, mapped, is_internal-mapped,
}
use irl_srt_server.PushUrl.Vetting.{AreOutside, validate_push_url-public}

abbrev template : List ℕ
template = srt ++ (58 ∷ 47 ∷ 47 ∷ 97 ∷ 63 ∷ []) ++ streamid ++ (61 ∷ []) ++ token

template-plain : has_stray_brace template ≡ false
unfolding has_stray_brace has_brace substitute_stream_name substitute_from is_at_token
template-plain = refl

abbrev cam : List ℕ
cam = 99 ∷ 97 ∷ 109 ∷ []

cam-plain : has_brace cam ≡ false
unfolding has_brace
cam-plain = refl

is_internal-mapped_example : is_internal (categorize_addr (v6 (mapped 127 0 0 1))) ≡ false
is_internal-mapped_example = is_internal-mapped 127 0 0 1

-- A resolver that knows one public address, and a parser that knows one URL.
abbrev net : Net
net = record {
  parse_url = λ url.
      some (record { scheme = srt; host = 97 ∷ []; port = []; query = (streamid, cam) ∷ [] });
  getaddrinfo = λ literal host service. (0, some (v4 134744072) ∷ []);
  answers_within = λ host ms. true;
  addr_to_string = λ a. [];
}

abbrev conf : AppConf
conf = record {
  max_url_len = pos 0;
  allow_schemes = [];
  allow_internal = false;
  allow_self = false;
}

accepted : (validate_push_url net 5000 conf [] true template).0 ≡ ok
unfolding validate_push_url check_url vet_all vet hand_over judge resolve collect_addrinfo
    addr_matches_any scheme_allowed lists_scheme next_word skip_separators has_streamid
    has_stray_brace has_brace substitute_stream_name substitute_from is_at_token categorize_addr
    is_loopback_v4 is_link_local_v4 is_private_v4 ipv4_in_cidr same_key
accepted = refl

validate_push_url-public_example :
    (u : Url) × (a : Addr) × (addrs : List Addr) × (net.parse_url
        (substitute_stream_name template stand_in)
      ≡ some u)
    × (resolve net 5000 u ≡ some (a ∷ addrs))
    × ((validate_push_url net 5000 conf [] true template).1 ≡ some a)
    × AreOutside (a ∷ addrs)
validate_push_url-public_example = validate_push_url-public net 5000 conf [] template refl accepted
