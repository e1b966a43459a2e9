-- ===== src/Config/Tests.antt =====
-- Examples of configurations, and of an address.
use logline.Base.{◌≡◌, refl, arith, [], ◌∷◌, ◌++◌, contains, codes}
use logline.Base.Decimal.{format}
use logline.Config.{ok}
use logline.Config.Address.{parse_address, parse_address-format}
use logline.Config.Complete.{IsComplete, configure-IsComplete}
use logline.Config.Usable.{IsUsable, configure-IsUsable}
use logline.Config.Samples.{
  secured_environment, secured_server_args, secured_server_conf, secured_configured,
  secured_agent_args, secured_agent_conf, secured_agent_configured,
}

configure-IsUsable_example : IsUsable secured_environment secured_server_args secured_server_conf
configure-IsUsable_example =
    configure-IsUsable secured_environment secured_server_args secured_server_conf
      secured_configured

configure-IsComplete_example : IsComplete secured_environment secured_agent_args secured_agent_conf
configure-IsComplete_example =
    configure-IsComplete secured_environment secured_agent_args secured_agent_conf
      secured_agent_configured

parse_address-format_example :
    (parse_address (codes "localhost" ++ (b':' ∷ format 5645)) ≡ ok (codes "localhost", 5645))
    × (parse_address (b':' ∷ format 5645) ≡ ok ([], 5645))
    × (parse_address (format 5645) ≡ ok ([], 5645))
parse_address-format_example =
    parse_address-format (codes "localhost") 5645 (unfold contains in refl) refl (omega arith)
