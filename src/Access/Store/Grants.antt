-- ===== src/Access/Store/Grants.antt =====
-- Who has access after a sequence of grants and revocations.
use rdp_warp_portal.Prelude.{
  ◌≡◌, refl, ap, sym, ◌∙◌, Bool, ◌&&◌, Option, none, some, List, [], ◌∷◌, if◌then◌else◌, text_eq,
  Text, arith, to_option,
}
use rdp_warp_portal.Prelude.Assoc.{lookup, lookup-insert, lookup-delete}
use rdp_warp_portal.Access.Store.{
  Grant, MemoryStore, grant_key, grant_key_eq, grant_access, revoke_access, find_grant,
  normalize_email,
}
use rdp_warp_portal.Strings.{equal_fold}

pub data AccessCall : Type 0 where
  grants : Grant → AccessCall
  revokes : Text → Text → AccessCall

-- Whether a call is about this user and host, in any case of their letters.
unfoldable pub concerns : AccessCall → Text → Text → Bool
unfolding equal_fold
concerns (grants g) email hostname =
    equal_fold g.user.email email && equal_fold g.host.hostname hostname
concerns (revokes e h) email hostname = equal_fold e email && equal_fold h hostname

-- What a call leaves for the user and the host that it is about.
unfoldable pub outcome : AccessCall → Option Grant
unfolding normalize_email
outcome (grants g) =
    some (record g { user = record g.user { email = normalize_email g.user.email } })
outcome (revokes e h) = none

-- The last word on a user and a host, after `before`.
unfoldable pub last_word : Text → Text → Option Grant → List AccessCall → Option Grant
unfolding concerns outcome
last_word email hostname before [] = before
last_word email hostname before (c ∷ cs) =
    last_word email hostname (if concerns c email hostname then outcome c else before) cs

module _ {K : Type 0} where
  unfoldable pub serve : MemoryStore K → AccessCall → MemoryStore K
  unfolding grant_access revoke_access
  serve s (grants g) = grant_access g s
  serve s (revokes e h) = revoke_access e h s

  unfoldable pub serve_all : MemoryStore K → List AccessCall → MemoryStore K
  unfolding serve
  serve_all s [] = s
  serve_all s (c ∷ cs) = serve_all (serve s c) cs

  unfoldable pub found : Text → Text → MemoryStore K → Option Grant
  unfolding find_grant
  found email hostname s = to_option (find_grant email hostname s)

  found-lookup :
      (email hostname : Text) (s : MemoryStore K)
      → found email hostname s ≡ lookup (grant_key email hostname) s.grants
  unfolding found find_grant
  found-lookup email hostname s = ground arith

  serve_lem :
      (s : MemoryStore K) (c : AccessCall) (email hostname : Text)
      → found email hostname (serve s c)
        ≡ (if concerns c email hostname then outcome c else found email hostname s)
  unfolding serve grant_access revoke_access concerns outcome equal_fold grant_key normalize_email
  serve_lem s (grants g) email hostname =
      found-lookup email hostname (grant_access g s)
      ∙ lookup-insert (grant_key g.user.email g.host.hostname) (grant_key email hostname) _ s.grants
      ∙ ap (λ before. if concerns (grants g) email hostname then outcome (grants g) else before)
          (sym (found-lookup email hostname s))
  serve_lem s (revokes e h) email hostname =
      found-lookup email hostname (revoke_access e h s)
      ∙ lookup-delete (grant_key e h) (grant_key email hostname) s.grants
      ∙ ap (λ before. if concerns (revokes e h) email hostname then none else before)
          (sym (found-lookup email hostname s))

  -- What `FindGrant` returns after any sequence of grants and revocations is what the last of them
  -- says that is about that user and that host, whatever the case of the letters; a user and a host
  -- that none of them is about keep what they had.
  pub find_grant-serve_all :
      (s : MemoryStore K) (calls : List AccessCall) (email hostname : Text)
      → to_option (find_grant email hostname (serve_all s calls))
        ≡ last_word email hostname (to_option (find_grant email hostname s)) calls
  unfolding serve_all last_word found
  find_grant-serve_all s [] email hostname = refl
  find_grant-serve_all s (c ∷ cs) email hostname =
      find_grant-serve_all (serve s c) cs email hostname
      ∙ ap (λ before. last_word email hostname before cs) (serve_lem s c email hostname)
