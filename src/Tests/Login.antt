-- ===== src/Tests/Login.antt =====
-- The JSON builder of src/util/json_builder.cpp and the endpoint /l at concrete inputs.
use cometvisu_knxd_fcgi.Handlers.Login.{Setup, login_body}
use cometvisu_knxd_fcgi.Util.JsonBuilder.{quoted}
use cometvisu_knxd_fcgi.Prelude.{◌≡◌, refl, not, some, List, [], ◌∷◌, Bytes, codes, is_empty}
use cometvisu_knxd_fcgi.Util.JsonBuilder.Members.{object_text, member}
use cometvisu_knxd_fcgi.Handlers.Login.Response.{optional, config_members, login_body-object_text}

abbrev members : List Bytes
members = codes "\"a\":1" ∷ codes "\"b\":2" ∷ []

object_sample : object_text members ≡ codes "{\"a\":1,\"b\":2}"
object_sample = refl

abbrev setup : Setup
setup = record {
  base_url = [];
  version = codes "1.1.0";
  git_hash = codes "unknown";
  knxd_build_version = [];
  knxd_build_git_hash = [];
  extra_config = some (codes "\"x\":1");
}

login_body-object_text_example :
    login_body setup (codes "0")
    ≡ object_text (
        member (codes "v") (quoted (codes "0.0.2"))
        ∷ member (codes "s") (quoted (codes "0"))
        ∷ optional
            (not (is_empty (config_members setup)))
            (member (codes "c") (object_text (config_members setup))))
login_body-object_text_example = login_body-object_text setup (codes "0")
