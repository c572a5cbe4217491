-- ===== src/Rest/Address.antt =====
-- telephonist/client.go and telephonist/wsclient.go: the addresses of the server.
use telephonist_agent.Base.{
  ℕ, Bytes, codes, List, [], ◌∷◌, ◌++◌, Bool, true, false, Bytes-discrete, ℕ_discrete, ite,
}

-- `url.URL`, its user part and fragment left out.
pub record Url : Type 0 where
  pub scheme : Bytes
  pub host : Bytes
  pub path : Bytes
  pub raw_query : Bytes

onto_first : ℕ → List Bytes → List Bytes
onto_first c [] = (c ∷ []) ∷ []
onto_first c (part ∷ parts) = (c ∷ part) ∷ parts

-- The elements of a path, between its slashes.
unfoldable pub split_path : Bytes → List Bytes
unfolding onto_first
split_path [] = [] ∷ []
split_path (c ∷ s) =
    let rest = split_path s in ite (ℕ_discrete c b'/') ([] ∷ rest) (onto_first c rest)

abbrev pub dot : Bytes
dot = codes "."

abbrev pub dots : Bytes
dots = codes ".."

-- `..` takes the element before it away; a path that is not rooted may begin with it.
back : Bool → List Bytes → List Bytes
back true [] = []
back false [] = dots ∷ []
back rooted (x ∷ out) = ite (Bytes-discrete x dots) (dots ∷ x ∷ out) out

-- One more element, onto those before it, the last first.
unfoldable pub push : Bool → Bytes → List Bytes → List Bytes
unfolding back
push rooted part out = ite (Bytes-discrete part []) out (
    ite (Bytes-discrete part dot) out
      (ite (Bytes-discrete part dots) (back rooted out) (part ∷ out)))

unfoldable pub clean_onto : Bool → List Bytes → List Bytes → List Bytes
unfolding push
clean_onto rooted out [] = out
clean_onto rooted out (part ∷ parts) = clean_onto rooted (push rooted part out) parts

-- The elements, the last first, with a slash between them.
join_back : List Bytes → Bytes → Bytes
join_back [] acc = acc
join_back (x ∷ []) acc = x ++ acc
join_back (x ∷ y ∷ out) acc = join_back (y ∷ out) (b'/' ∷ x ++ acc)

is_rooted : Bytes → Bool
is_rooted [] = false
is_rooted (c ∷ s) = ite (ℕ_discrete c b'/') true false

cleaned : Bool → List Bytes → Bytes
unfolding join_back
cleaned true out = b'/' ∷ join_back out []
cleaned false [] = dot
cleaned false (x ∷ out) = join_back (x ∷ out) []

-- `path.Clean`
unfoldable pub clean : Bytes → Bytes
unfolding is_rooted clean_onto split_path cleaned
clean [] = dot
clean (c ∷ s) = cleaned (is_rooted (c ∷ s)) (clean_onto (is_rooted (c ∷ s)) [] (split_path (c ∷ s)))

each_slashed : List Bytes → Bytes
each_slashed [] = []
each_slashed (part ∷ parts) = b'/' ∷ part ++ each_slashed parts

-- The elements from the first that is not empty on, with a slash between them.
slashed : List Bytes → Bytes
unfolding each_slashed
slashed [] = []
slashed ([] ∷ parts) = slashed parts
slashed ((c ∷ s) ∷ parts) = (c ∷ s) ++ each_slashed parts

cleaned_unless_empty : Bytes → Bytes
unfolding clean
cleaned_unless_empty [] = []
cleaned_unless_empty (c ∷ s) = clean (c ∷ s)

-- `path.Join`
unfoldable pub join : List Bytes → Bytes
unfolding slashed cleaned_unless_empty
join parts = cleaned_unless_empty (slashed parts)

-- `getUrl`, with the fixed part of its path.
unfoldable pub under : Bytes → Bytes → Url → Url
unfolding join
under prefix s_url u = record u { path = join (u.path ∷ prefix ∷ s_url ∷ []) }

without_slash : Bytes → Bytes
without_slash [] = []
without_slash (c ∷ s) = ite (ℕ_discrete c b'/') s (c ∷ s)

-- `getWebsocketURL`
unfoldable pub websocket_url : Bytes → Bytes → Url → Url
unfolding without_slash
websocket_url prefix ticket u = record u {
  scheme = ite (Bytes-discrete u.scheme (codes "https")) (codes "wss") (codes "ws");
  path = codes "/api/application-v1/ws/" ++ without_slash prefix;
  raw_query = codes "ticket=" ++ ticket;
}
