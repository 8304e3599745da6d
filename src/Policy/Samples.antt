-- ===== src/Policy/Samples.antt =====
-- A small policy, for the tests.
use local_recall.Common.{◌%◌, true, false, none, some, [], ◌∷◌, ◌==◌, length, codes}
use local_recall.Policy.{
  screenshot, ocr, PolicyEvaluationContext, text, integer, Library, LocalRecallConfig, CaptureRule,
  allow, deny, local_only,
}
use local_recall.Policy.Engine.{PolicyEngine}
use local_recall.Policy.Match.{CompiledRule}

abbrev pub library : Library
library = record {
  casefold = λ t. t;
  strip = λ t. t;
  printed = λ v. [];
  compiles = λ pattern. true;
  search = λ pattern title. length pattern == length title;
  ip_address = λ t. none;
  has_zone = λ zone. length zone == 3;
  local_time = λ zone now. now % 86400000000;
  anonymous_rule_id = λ rule. codes "rule-x";
}

abbrev pub rule : CaptureRule
rule = record {
  effect = allow;
  rule_id = some (codes "editor");
  enabled = true;
  priority = 1000;
  operations = screenshot ∷ ocr ∷ [];
  application = some (codes "emacs");
  title_pattern = none;
  workspace = none;
  domain = none;
  include_subdomains = false;
  full_screen = none;
  metadata_source = none;
  time_window = none;
}

abbrev pub configuration : LocalRecallConfig
configuration = record {
  profile = local_only;
  default_effect = deny;
  timezone = codes "UTC";
  max_metadata_age = 5000000;
  rules = rule ∷ [];
  sensitive_applications = [];
  sensitive_workspaces = [];
  remote_enabled = false;
  remote_providers = [];
}

abbrev pub nowhere : LocalRecallConfig
nowhere = record configuration { timezone = codes "nowhere" }

abbrev pub compiled : CompiledRule
compiled = record {
  rule = rule;
  rule_id = codes "editor";
  title_pattern = none;
  normalized_domain = none;
}

abbrev pub engine : PolicyEngine
engine = record {
  configuration = configuration;
  revision = codes "r1";
  generation = 1;
  rules = compiled ∷ [];
  privacy_mode = false;
  session_locked = false;
  healthy = true;
  last_error_code = none;
  temporary = [];
}

abbrev pub context : PolicyEvaluationContext
context = record {
  metadata = record {
    observed_at = 100;
    fields =
        record {
          name = codes "application";
          value = text (codes "emacs");
          provenance = codes "x11" ∷ [];
        }
        ∷ record {
          name = codes "window.id";
          value = integer false 7;
          provenance = codes "x11" ∷ [];
        }
        ∷ [];
  };
  evaluated_at = 200;
  capture_generation = 1;
  full_screen = none;
}
