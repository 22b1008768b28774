-- ===== src/Extensions/Tests.antt =====
-- One registered extension.
use mrt_post_office.Prelude.{none, [], true, false}
use mrt_post_office.Prelude.Chars.{codes}
use mrt_post_office.Extensions.Extension.{Extension}
use mrt_post_office.Extensions.Pool.{Pool, empty_pool, register_extension}

abbrev plugin : Extension
plugin = record {
  name = codes "plugin";
  label = codes "Plugin";
  version = codes "1.0";
  description = [];
  always_active = false;
  url = none;
  topredirection_url = none;
  available_apps = [];
  frontend_menu_entries = [];
  frontend_routes = [];
  frontend_remote = none;
  frontend_ui_extensions = [];
}

abbrev pool : Pool
pool = register_extension plugin true empty_pool
