-- ===== src/Auth/Roles.antt =====
-- What the Boolean tests of useAuth.ts say of the stored token.
use forensic_chain.Common.{
  ℕ, ◌*◌, ◌<◌, String, true, Option, some, List, ◌≡◌, ◌≢◌, arith, Option-cases, inl, inr, Holds,
  contains_iff, eq_iff,
}
use forensic_chain.Http.{Browser}
use forensic_chain.Auth.{JwtPayload, decode_token, is_authenticated, has_role}

module _ (jwt_decode : String → Option JwtPayload) (b : Browser) where
  -- The stored token decodes to a payload of one of the roles.
  pub record HasRole (roles : List String) : Type 0 where
    pub payload : JwtPayload
    pub decoded : decode_token jwt_decode b ≡ some payload
    pub named : payload.role ≢ ""
    pub listed : Holds payload.role roles

  -- The stored token decodes to a payload that has not expired.
  pub record IsLive (now : ℕ) : Type 0 where
    pub payload : JwtPayload
    pub decoded : decode_token jwt_decode b ≡ some payload
    pub unexpired : now < payload.exp * 1000

  pub has_role-HasRole : (roles : List String) → has_role jwt_decode b roles ≡ true → HasRole roles
  unfolding has_role
  has_role-HasRole roles e = elim (Option-cases (decode_token jwt_decode b)) [
    | inl missing ↦ absurd (ground (arith, missing))
    | inr (payload, found) ↦ record {
      payload = payload;
      decoded = found;
      named = ground (arith, found, eq_iff payload.role "");
      listed = (contains_iff roles payload.role).0 (ground (arith, found));
    }
  ]

  pub HasRole-has_role : (roles : List String) → HasRole roles → has_role jwt_decode b roles ≡ true
  unfolding has_role
  HasRole-has_role roles h =
      ground
        (arith, h.decoded, eq_iff h.payload.role "", (contains_iff roles h.payload.role).1 h.listed)

  pub is_authenticated-IsLive : (now : ℕ) → is_authenticated jwt_decode b now ≡ true → IsLive now
  unfolding is_authenticated
  is_authenticated-IsLive now e = elim (Option-cases (decode_token jwt_decode b)) [
    | inl missing ↦ absurd (ground (arith, missing))
    | inr (payload, found) ↦ record {
      payload = payload;
      decoded = found;
      unexpired = ground (arith, found);
    }
  ]

  pub IsLive-is_authenticated : (now : ℕ) → IsLive now → is_authenticated jwt_decode b now ≡ true
  unfolding is_authenticated
  IsLive-is_authenticated now h = ground (arith, h.decoded, h.unexpired)
