-- ===== src/Rest/Url/RoundTrip.antt =====
-- Reading a URL that was put together from its parts gives the parts back.
use bintrade.Prelude.{
  ap₂, All-append, lt→ltb, ℕ, ◌+◌, ◌-◌, ◌≤◌, ◌≡◌, ◌∙◌, ap, refl, Text, str, Option, none, some, [],
  ◌∷◌, ◌++◌, length, length-append, take-append, drop-append, find, find_from, index, index-append,
  index-append_skip, find-append, shift, Lacks, substr, arith, append_assoc,
}
use bintrade.Core.Error.{ok}
use bintrade.Rest.Url.{authority, cut_authority, path_pos, default_port, parse_url, parse_wss_url}

-- What may follow the authority: nothing, or a path.
pub data PathPart : Text → Type 0 where
  no_path : PathPart []
  path : (p : Text) → PathPart (b'/' ∷ p)

find_from-append :
    (c : ℕ) (pre rest : Text)
    → find_from c (pre ++ rest) (length pre) ≡ shift (length pre) (index c rest)
unfolding find_from
find_from-append c pre rest = ap (λ s. shift (length pre) (index c s)) (drop-append pre rest)

shift-shift : (a b : ℕ) (o : Option ℕ) → shift a (shift b o) ≡ shift (a + b) o
shift-shift a b o = ground arith

-- The first `c` behind a part of the text that has none.
find_from-append_skip :
    (c : ℕ) (pre a rest : Text)
    → Lacks c a
    → find_from c (pre ++ (a ++ rest)) (length pre)
      ≡ shift (length pre) (shift (length a) (index c rest))
find_from-append_skip c pre a rest h =
    find_from-append c pre (a ++ rest) ∙ ap (shift (length pre)) (index-append_skip c a rest h)

path_pos-append :
    (pre a : Text) {tail : Text}
    → Lacks b'/' a
    → PathPart tail
    → path_pos (pre ++ (a ++ tail)) (find_from b'/' (pre ++ (a ++ tail)) (length pre))
      ≡ length pre + length a
unfolding index
path_pos-append pre a h no_path =
    rw (find_from-append_skip b'/' pre a [] h)
      (omega (arith, length-append pre (a ++ []), length-append a []))
path_pos-append pre a h (path p) = rw (find_from-append_skip b'/' pre a (b'/' ∷ p) h) (omega arith)

substr-append :
    (pre xs ys : Text) (n : ℕ) → n ≡ length xs → substr (pre ++ (xs ++ ys)) (length pre) n ≡ xs
substr-append pre xs ys n e = rw (e, drop-append pre (xs ++ ys)) (take-append xs ys)

-- With no colon before the end, the port is the default.
cut_authority_default :
    (url : Text) (start end base : ℕ) (colon : Option ℕ) (d : Text)
    → end ≤ base
    → cut_authority url start (shift base colon) end d ≡ (substr url start (end - start), d)
cut_authority_default url start end base none d h = refl
cut_authority_default url start end base (some j) d h = ground arith

module _ (pre host : Text) {tail : Text} (no_colon : Lacks b':' host) (no_slash : Lacks b'/' host)
    (end : PathPart tail) where
  authority_default : (d : Text) → authority (pre ++ (host ++ tail)) (length pre) d ≡ (host, d)
  unfolding authority
  authority_default d =
      rw
        (
          find_from-append_skip b':' pre host tail no_colon,
          path_pos-append pre host no_slash end,
          shift-shift (length pre) (length host) (index b':' tail),
        )
        (cut_authority_default (pre ++ (host ++ tail)) (length pre) (length pre + length host)
            (length pre + length host) (index b':' tail) d (omega arith)
          ∙ ap (λ h. (h, d))
              (substr-append pre host tail (length pre + length host - length pre) (omega arith)))

  authority_port :
      (d port : Text)
      → Lacks b'/' port
      → authority (pre ++ (host ++ (b':' ∷ (port ++ tail)))) (length pre) d ≡ (host, port)
  unfolding authority
  authority_port d port h =
      rw
        (
          colon_at,
          end_at,
          lt→ltb (length pre + length host) (length pre + length (host ++ b':' ∷ port))
              (omega (arith, length-append host (b':' ∷ port))),
        )
        (ap₂ (λ (u : Text) (v : Text). (u, v)) (substr-append pre host _ _ (omega arith))
          (ap
              (λ u.
                substr u (length pre + length host + 1)
                  (length pre + length (host ++ b':' ∷ port) - (length pre + length host) - 1))
              regroup
            ∙ ap
                (λ n.
                  substr (before ++ (port ++ tail)) n
                    (length pre + length (host ++ b':' ∷ port) - (length pre + length host) - 1))
                (omega
                  (arith, length-append pre (host ++ b':' ∷ []), length-append host (b':' ∷ [])))
            ∙ substr-append before port tail _ (omega (arith, length-append host (b':' ∷ port)))))
    where
      before : Text
      before = pre ++ (host ++ b':' ∷ [])

      regroup : pre ++ (host ++ (b':' ∷ (port ++ tail))) ≡ before ++ (port ++ tail)
      regroup = simp append_assoc

      colon_at :
          find_from b':' (pre ++ (host ++ (b':' ∷ (port ++ tail)))) (length pre)
          ≡ some (length pre + length host)
      colon_at =
          find_from-append b':' pre _
          ∙ ap (shift (length pre)) (index-append b':' host (port ++ tail) no_colon)

      end_at :
          path_pos
            (pre ++ (host ++ (b':' ∷ (port ++ tail))))
            (find_from b'/' (pre ++ (host ++ (b':' ∷ (port ++ tail)))) (length pre))
          ≡ length pre + length (host ++ b':' ∷ port)
      end_at = rw (append_assoc host (b':' ∷ port) tail) at (
          path_pos-append pre (host ++ b':' ∷ port)
            (All-append _ host (b':' ∷ port) no_slash (omega arith, h)) end)

-- The two parsers behind a scheme, given what `authority` makes of the rest.
abbrev before_host : Text → Text
before_host scheme = scheme ++ str "://"

module _ (scheme rest : Text) (no_colon : Lacks b':' scheme) where
  marker_at : find (str "://") (scheme ++ (str "://" ++ rest)) ≡ some (length scheme)
  unfolding str
  marker_at = find-append b':' (b'/' ∷ b'/' ∷ []) scheme rest no_colon

  length-before_host : length scheme + 3 ≡ length (before_host scheme)
  unfolding str
  length-before_host = omega (arith, length-append scheme (str "://"))

  rest_at :
      (d : Text) (host port : Text)
      → authority (before_host scheme ++ rest) (length (before_host scheme)) d ≡ (host, port)
      → authority (scheme ++ (str "://" ++ rest)) (length scheme + 3) d ≡ (host, port)
  rest_at d host port h = rw (length-before_host, ← append_assoc scheme (str "://") rest) h

  parse_url_of :
      (host port : Text)
      → authority (before_host scheme ++ rest) (length (before_host scheme)) (default_port scheme)
        ≡ (host, port)
      → parse_url (scheme ++ (str "://" ++ rest))
        ≡ ok (record { scheme = scheme; host = host; port = port })
  unfolding parse_url
  parse_url_of host port h =
      rw (marker_at, parse_url, take-append scheme (str "://" ++ rest))
        (ap (λ (a : Text × Text). ok (record { scheme = scheme; host = a.0; port = a.1 }))
          (rest_at _ host port h))

  parse_wss_url_of :
      (host port : Text)
      → authority (before_host scheme ++ rest) (length (before_host scheme)) (str "443")
        ≡ (host, port)
      → parse_wss_url (scheme ++ (str "://" ++ rest)) ≡ ok (record { host = host; port = port })
  unfolding parse_wss_url
  parse_wss_url_of host port h =
      rw (marker_at, parse_wss_url)
        (ap (λ (a : Text × Text). ok (record { host = a.0; port = a.1 })) (rest_at _ host port h))

-- A URL that is put together from a scheme without a colon, a host without a colon or a slash, and
-- nothing or a path behind it, is cut into that scheme, that host and the default port; with a
-- colon and a port without a slash behind the host, into that scheme, that host and that port. So
-- it is for the REST URL and for the WebSocket URL, whose default port is 443.
pub parse_url-append :
    (scheme host port : Text) {tail : Text}
    → Lacks b':' scheme
    → Lacks b':' host
    → Lacks b'/' host
    → Lacks b'/' port
    → PathPart tail
    → (parse_url (scheme ++ (str "://" ++ (host ++ tail)))
        ≡ ok (record { scheme = scheme; host = host; port = default_port scheme }))
      × (parse_url (scheme ++ (str "://" ++ (host ++ (b':' ∷ (port ++ tail)))))
          ≡ ok (record { scheme = scheme; host = host; port = port }))
      × (parse_wss_url (scheme ++ (str "://" ++ (host ++ tail)))
          ≡ ok (record { host = host; port = str "443" }))
      × (parse_wss_url (scheme ++ (str "://" ++ (host ++ (b':' ∷ (port ++ tail)))))
          ≡ ok (record { host = host; port = port }))
parse_url-append scheme host port {tail} no_colon h1 h2 h3 end = (
  parse_url_of scheme _ no_colon host _ (authority_default (before_host scheme) host h1 h2 end _),
  parse_url_of scheme _ no_colon host port
      (authority_port (before_host scheme) host h1 h2 end _ port h3),
  parse_wss_url_of scheme _ no_colon host _
      (authority_default (before_host scheme) host h1 h2 end _),
  parse_wss_url_of scheme _ no_colon host port
      (authority_port (before_host scheme) host h1 h2 end _ port h3),
)
