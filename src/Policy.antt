-- ===== src/Policy.antt =====
-- src/policy.rs: policy rows, how one row applies to a request, and its verdict. The enums and the
-- token payload come from src/db.rs.
pub mod Segments
pub mod Matching
use janux.Common.{
  Bool, List, Option, Text, [], chars, contains, drop, drop_last, ends_with, false, if◌then◌else◌,
  is_empty, is_some, join, length, lookup, ltb, none, not, some, split, starts_with, text_eq, true,
  ℕ, ◌&&◌, ◌==◌, ◌||◌, ◌∷◌,
}

pub data HttpMethod : Type 0 where
  get post put options delete patch connect head trace : HttpMethod

-- The derived `PartialEq`, on the column's variant numbers.
abbrev pub variant : HttpMethod → ℕ
variant get = 1
variant post = 2
variant put = 3
variant options = 4
variant delete = 5
variant patch = 6
variant connect = 7
variant head = 8
variant trace = 9

abbrev pub method_eq : HttpMethod → HttpMethod → Bool
method_eq a b = variant a == variant b

abbrev pub action_eq : Option HttpMethod → Option HttpMethod → Bool
action_eq none none = true
action_eq (some a) (some b) = method_eq a b
action_eq _ _ = false

pub data SourceResolver : Type 0 where
  nothing user domain role : SourceResolver

pub data TargetResolver : Type 0 where
  nothing : TargetResolver
  from_path from_query from_header : Text → TargetResolver

pub data Source : Type 0 where
  user domain role : Text → Source

-- The row without its two timestamps and its relations.
pub record Policy : Type 0 where
  pub id : ℕ
  pub domain_id : Text
  pub action : Option HttpMethod
  pub resource : Text
  pub role_id : Text
  pub source : SourceResolver
  pub target : TargetResolver
  pub mfa : Bool
  pub allowed : Bool

-- A hash set is the list of its members, in some order and each of them once.
pub record JwtData : Type 0 where
  pub user : Text
  pub username : Text
  pub domain : Text
  pub mfa : List Text
  pub roles : List Text
  pub typ : Option Text

pub record CanAccess : Type 0 where
  pub can_access : Bool
  pub expect_mfa : Bool

-- The parts of a request that a policy is tried against.
pub record Request : Type 0 where
  pub act : HttpMethod
  pub path : List Text
  pub query : List (Text × Text)
  pub header : List (Text × Text)

abbrev pub is_param : Text → Bool
is_param seg = starts_with b'{' seg && ends_with b'}' seg

-- `zip(..).all(..)`
abbrev pub segments_match : List Text → List Text → Bool
segments_match [] _ = true
segments_match (r ∷ rs) [] = true
segments_match (r ∷ rs) (p ∷ ps) = (is_param r || text_eq r p) && segments_match rs ps

unfoldable pub resource_matches_path : Text → List Text → Bool
resource_matches_path resource path =
    if is_empty resource
    then true
    else let segs = split b'/' resource in length segs == length path && segments_match segs path

unfoldable pub resolve_source : Policy → JwtData → Option Source
resolve_source p jwt = elim p.source [
  | SourceResolver.nothing ↦ none
  | SourceResolver.domain ↦ some (Source.domain jwt.domain)
  | SourceResolver.user ↦ some (Source.user jwt.user)
  | SourceResolver.role ↦ some (Source.role p.role_id)
]

-- The loop over the zipped segments: `none` when a fixed segment differs, else the captures, the
-- last one first.
unfoldable pub capture : List Text → List Text → List (Text × Text) → Option (List (Text × Text))
capture [] _ mapping = some mapping
capture (r ∷ rs) [] mapping = some mapping
capture (r ∷ rs) (p ∷ ps) mapping =
    let kept = capture rs ps ((drop_last (drop 1 r), p) ∷ mapping) in
    let same = capture rs ps mapping in
    if is_param r then kept else if text_eq r p then same else none

abbrev is_some_and : Option Text → Text → Bool
is_some_and none name = false
is_some_and (some t) name = text_eq t name

abbrev pub source_accepts : Option Source → Option Text → Bool
source_accepts none t = not (is_some t)
source_accepts (some (Source.user name)) t = is_some_and t name
source_accepts (some (Source.domain name)) t = is_some_and t name
source_accepts (some (Source.role name)) t = is_some_and t name

-- The verdict of a row that applies.
unfoldable pub verdict : Policy → JwtData → CanAccess
verdict p jwt =
    if not p.mfa
    then record { can_access = p.allowed; expect_mfa = p.mfa }
    else let mfa = contains (chars "totp") jwt.mfa && ltb 1 (length jwt.mfa) in
      record { can_access = mfa && p.allowed; expect_mfa = not mfa }

-- `str::to_lowercase` over all of Unicode is a parameter.
module _ (to_lowercase : Text → Text) where
  unfoldable pub resolve_target : Policy → Request → Option Text
  unfolding capture
  resolve_target p req = elim p.target [
    | TargetResolver.nothing ↦ none
    | TargetResolver.from_path pname ↦
        let segs = split b'/' p.resource in
        if length segs == length req.path
        then elim (capture segs req.path []) [ none ↦ none | some m ↦ lookup pname m ]
        else none
    | TargetResolver.from_query qname ↦ lookup qname req.query
    | TargetResolver.from_header hname ↦ lookup (to_lowercase hname) req.header
  ]

  -- The branch on the two resolvers.
  abbrev pub resolvers_match : SourceResolver → TargetResolver → Policy → JwtData → Request → Bool
  resolvers_match SourceResolver.nothing TargetResolver.nothing p jwt req =
      if is_empty p.resource then true else text_eq (join b'/' req.path) p.resource
  resolvers_match s t p jwt req =
      if resource_matches_path p.resource req.path
      then source_accepts (resolve_source p jwt) (resolve_target p req)
      else false

  unfoldable pub matched : Policy → Text → JwtData → Request → Bool
  matched p dom jwt req =
      if text_eq dom jwt.domain
        && text_eq dom p.domain_id
        && (action_eq (some req.act) p.action || not (is_some p.action))
      then resolvers_match p.source p.target p jwt req
      else false

  unfoldable pub can_access : Policy → Text → JwtData → Request → Option CanAccess
  can_access p dom jwt req = if not (matched p dom jwt req) then none else some (verdict p jwt)
