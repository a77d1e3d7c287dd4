-- ===== src/Conf/Tests.antt =====
-- Runs of parse_util.c at concrete inputs.
use powerman.Base.{suc, ◌≡◌, List, [], ◌∷◌, ◌++◌, some, length}
use powerman.CStr.{CStr, codes}
use powerman.Conf.{conf_exp_aliases}
use powerman.Conf.Aliases.{plain_hosts, expansions, conf_exp_aliases_expands}
use powerman.Samples.{hosts, conf, t1}

abbrev given : List CStr
given = codes "both" ∷ t1 ∷ []

conf_exp_aliases_expands_example :
    conf_exp_aliases (suc (length given)) hosts conf.aliases given
    ≡ some (plain_hosts conf.aliases given ++ expansions conf.aliases given)
conf_exp_aliases_expands_example = conf_exp_aliases_expands hosts conf.aliases given
