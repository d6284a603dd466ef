-- ===== src/SmallViews/Unauthorized.antt =====
-- forensic-ui/src/pages/UnauthorizedPage.tsx
use forensic_chain.Common.{String, Option, none, is_present, if◌then◌else◌}
use forensic_chain.Http.{Browser}
use forensic_chain.Auth.{JwtPayload, get_username, get_role}

-- The lines of the user and of his role, and the target of the link.
pub record View : Type 0 where
  pub username : Option String
  pub role : Option String
  pub link : String

unfoldable pub view : (String → Option JwtPayload) → Browser → View
view jwt_decode b = record {
  username = (let name = get_username jwt_decode b in if is_present name then name else none);
  role = (let role = get_role jwt_decode b in if is_present role then role else none);
  link = "/";
}
