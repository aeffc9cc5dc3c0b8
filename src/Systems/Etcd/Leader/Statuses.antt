-- ===== src/Systems/Etcd/Leader/Statuses.antt =====
-- The statuses that etcdctl prints, and the leader that is read from them.
use reckon_k8s.Prelude.{
  ℕ, ◌≡◌, refl, ap, ◌∙◌, Bool, true, false, List, [], ◌∷◌, ◌++◌, map, Option, none, some, All,
  All-append, arith, append_assoc, if◌then◌else◌,
}
use reckon_k8s.Outcome.{ok}
use reckon_k8s.Text.{Text, codes, text_eq}
use reckon_k8s.Text.Split.{
  split_on, split_from, strip, but_last, Lacks, split_from-Lacks, split_on-first, split_on-none,
}
use reckon_k8s.Systems.Etcd.Leader.{first_of, endpoint_ip, find_endpoint, parse_resp}

-- A line of `etcdctl endpoint status --cluster`: the endpoint, the identifier, the version, the size of
-- the database, whether it leads, and more.
pub record Status : Type 0 where
  pub ip : Text
  pub id : Text
  pub version : Text
  pub db_size : Text
  pub is_leader : Bool
  pub more : Text

abbrev pub comma : ℕ
comma = 44

abbrev pub newline : ℕ
newline = 10

abbrev pub endpoint : Text → Text
endpoint ip = codes "http://" ++ (ip ++ codes ":2379")

abbrev pub leads : Bool → Text
leads true = codes " true"
leads false = codes " false"

abbrev pub line : Status → Text
line s =
    endpoint s.ip
    ++ comma
      ∷ ((codes " " ++ s.id)
          ++ comma
            ∷ ((codes " " ++ s.version)
                ++ comma
                  ∷ ((codes " " ++ s.db_size) ++ comma ∷ (leads s.is_leader ++ comma ∷ s.more))))

abbrev pub printed : List Status → Text
printed [] = []
printed (s ∷ ss) = line s ++ newline ∷ printed ss

-- The fields have no commas and no line breaks, and an address has no colon.
pub record IsPrintable (s : Status) : Type 0 where
  pub ip_colon : Lacks 58 s.ip
  pub ip_comma : Lacks comma s.ip
  pub id_comma : Lacks comma s.id
  pub version_comma : Lacks comma s.version
  pub db_size_comma : Lacks comma s.db_size
  pub ip_newline : Lacks newline s.ip
  pub id_newline : Lacks newline s.id
  pub version_newline : Lacks newline s.version
  pub db_size_newline : Lacks newline s.db_size
  pub more_newline : Lacks newline s.more

-- The address of the first that leads.
abbrev pub leader_ip : List Status → Option Text
leader_ip [] = none
leader_ip (s ∷ ss) = let rest = leader_ip ss in if s.is_leader then some s.ip else rest

endpoint-Lacks-comma : (ip : Text) → Lacks comma ip → Lacks comma (endpoint ip)
endpoint-Lacks-comma ip h =
    All-append _ (codes "http://") (ip ++ codes ":2379") (ground arith)
      (All-append _ ip (codes ":2379") h (ground arith))

address :
    (ip : Text)
    → Lacks 58 ip
    → split_on (codes "://") (endpoint ip) ≡ codes "http" ∷ (ip ++ codes ":2379") ∷ []
unfolding split_on split_from
address ip h =
    ap (λ l. codes "http" ∷ l)
      (split_from-Lacks 58 (codes "//") [] ip (codes ":2379") h ∙ simp append_assoc)

endpoint_ip-endpoint : (ip : Text) → Lacks 58 ip → endpoint_ip (endpoint ip) ≡ ip
unfolding endpoint_ip
endpoint_ip-endpoint ip h = rw (address ip h) (ap first_of (split_on-first 58 ip (codes "2379") h))

fields :
    (s : Status)
    → IsPrintable s
    → split_on (comma ∷ []) (line s)
      ≡ endpoint s.ip
        ∷ (codes " " ++ s.id)
        ∷ (codes " " ++ s.version)
        ∷ (codes " " ++ s.db_size)
        ∷ leads s.is_leader
        ∷ split_on (comma ∷ []) s.more
fields s p =
    split_on-first comma (endpoint s.ip) _ (endpoint-Lacks-comma s.ip p.ip_comma)
    ∙ ap (λ l. endpoint s.ip ∷ l)
        (split_on-first comma (codes " " ++ s.id) _ (refl, p.id_comma)
          ∙ ap (λ l. (codes " " ++ s.id) ∷ l)
              (split_on-first comma (codes " " ++ s.version) _ (refl, p.version_comma)
                ∙ ap (λ l. (codes " " ++ s.version) ∷ l)
                    (split_on-first comma (codes " " ++ s.db_size) _ (refl, p.db_size_comma)
                      ∙ ap (λ l. (codes " " ++ s.db_size) ∷ l)
                          (split_on-first comma (leads s.is_leader) s.more
                            (leads-Lacks s.is_leader)))))
  where
    leads-Lacks : (b : Bool) → Lacks comma (leads b)
    leads-Lacks true = ground arith
    leads-Lacks false = ground arith

find_endpoint-line :
    (s : Status) (rest : List Text)
    → IsPrintable s
    → find_endpoint (line s ∷ rest) ≡ (if s.is_leader then ok (some s.ip) else find_endpoint rest)
unfolding find_endpoint
find_endpoint-line s rest p =
    rw (fields s p, endpoint_ip-endpoint s.ip p.ip_colon) (flag s.is_leader)
  where
    flag :
        (b : Bool)
        → (if text_eq (strip (leads b)) (codes "true") then ok (some s.ip) else find_endpoint rest)
          ≡ (if b then ok (some s.ip) else find_endpoint rest)
    flag true = refl
    flag false = refl

find_endpoint-lines :
    (ss : List Status) → All IsPrintable ss → find_endpoint (map line ss) ≡ ok (leader_ip ss)
unfolding find_endpoint
find_endpoint-lines [] h = refl
find_endpoint-lines (s ∷ ss) h =
    find_endpoint-line s (map line ss) h.0 ∙ rw (find_endpoint-lines ss h.1) (flag s.is_leader)
  where
    flag :
        (b : Bool)
        → (if b then ok (some s.ip) else ok (leader_ip ss))
          ≡ ok (if b then some s.ip else leader_ip ss)
    flag true = refl
    flag false = refl

line-Lacks : (s : Status) → IsPrintable s → Lacks newline (line s)
line-Lacks s p =
    let ip =
      All-append _ (codes "http://") (s.ip ++ codes ":2379") (ground arith)
        (All-append _ s.ip (codes ":2379") p.ip_newline (ground arith)) in
    let size =
      All-append _ s.db_size _ p.db_size_newline (
        refl,
        All-append _ (leads s.is_leader) _ (leads-Lacks s.is_leader) (refl, p.more_newline),
      ) in
    let version = All-append _ s.version _ p.version_newline (refl, (refl, size)) in
    let id = All-append _ s.id _ p.id_newline (refl, (refl, version)) in
    All-append _ (endpoint s.ip) _ ip (refl, (refl, id))
  where
    leads-Lacks : (b : Bool) → Lacks newline (leads b)
    leads-Lacks true = ground arith
    leads-Lacks false = ground arith

lines :
    (ss : List Status)
    → All IsPrintable ss
    → split_on (newline ∷ []) (printed ss) ≡ map line ss ++ [] ∷ []
lines [] h = split_on-none newline [] tt
lines (s ∷ ss) h =
    split_on-first newline (line s) (printed ss) (line-Lacks s h.0)
    ∙ ap (λ l. line s ∷ l) (lines ss h.1)

but_last-append : (xs : List Text) → but_last (xs ++ [] ∷ []) ≡ xs
but_last-append [] = refl
but_last-append (x ∷ []) = refl
but_last-append (x ∷ y ∷ xs) = ap (λ l. x ∷ l) (but_last-append (y ∷ xs))

-- The statuses that etcdctl prints, one to a line, are read back as the address of the first node
-- that leads, or as none when no node does.
pub parse_resp-printed :
    (ss : List Status) → All IsPrintable ss → parse_resp (printed ss) ≡ ok (leader_ip ss)
unfolding parse_resp
parse_resp-printed ss h =
    ap (λ l. find_endpoint (but_last l)) (lines ss h)
    ∙ ap find_endpoint (but_last-append (map line ss))
    ∙ find_endpoint-lines ss h
