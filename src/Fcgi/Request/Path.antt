-- ===== src/Fcgi/Request/Path.antt =====
-- What src/fcgi/fcgi_request.cpp takes for the path.
use cometvisu_knxd_fcgi.Fcgi.Request.{FcgiRequest, without_query, below_script, path, is_empty}
use cometvisu_knxd_fcgi.Util.QueryString.Values.{Lacks, find_byte-none, find_byte-append}
use cometvisu_knxd_fcgi.Prelude.{
  ◌≡◌, refl, true, false, Option, none, some, [], ◌∷◌, ◌++◌, arith, Bytes, leb, length, bytes_eq,
  bytes_eq_iff, append-nil, is_empty, take-append, length-append, drop-append,
}

-- The end of a request URI: nothing, or a question mark and the query.
abbrev pub query_part : Option Bytes → Bytes
query_part none = []
query_part (some q) = b'?' ∷ q

without_query-append :
    (s : Bytes) (q : Option Bytes) → Lacks b'?' s → without_query (s ++ query_part q) ≡ s
unfolding without_query
without_query-append s none h =
    rw (append-nil s, without_query, find_byte-none b'?' s h) (append-nil s)
without_query-append s (some q) h =
    rw (without_query, find_byte-append b'?' s q h) (take-append s (b'?' ∷ q))

below_script-append :
    (script trail : Bytes)
    → is_empty script ≡ false
    → is_empty trail ≡ false
    → below_script script (script ++ trail) ≡ trail
unfolding below_script
below_script-append script trail s t =
    let fits : leb (length script) (length (script ++ trail)) ≡ true =
      let l = length-append script trail in ground arith in
    let same : bytes_eq script script ≡ true = let (_, g) = bytes_eq_iff script script in g refl in
    rw (s, fits, take-append script trail, drop-append script trail, same, t)

-- Without PATH_INFO, and with a URI that is SCRIPT_NAME, a rest and perhaps a query, the path is the
-- rest. Neither SCRIPT_NAME nor the rest is empty or has a question mark.
pub path-below_script :
    (r : FcgiRequest) (trail : Bytes) (q : Option Bytes)
    → r.path_info ≡ []
    → r.request_uri ≡ (r.script_name ++ trail) ++ query_part q
    → is_empty r.script_name ≡ false
    → is_empty trail ≡ false
    → Lacks b'?' (r.script_name ++ trail)
    → path r ≡ trail
unfolding path
path-below_script r trail q none_given uri s t h =
    let some_uri : is_empty ((r.script_name ++ trail) ++ query_part q) ≡ false =
      append_filled (r.script_name ++ trail) (query_part q) (append_filled r.script_name trail s) in
    rw (none_given, uri, some_uri, without_query-append (r.script_name ++ trail) q h)
      (below_script-append r.script_name trail s t)
  where
    append_filled : (a b : Bytes) → is_empty a ≡ false → is_empty (a ++ b) ≡ false
    append_filled [] b e = absurd cc
    append_filled (x ∷ a) b e = refl
