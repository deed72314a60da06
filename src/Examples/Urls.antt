-- ===== src/Examples/Urls.antt =====
-- The URL of an Ethereum node.
use bzapi.Base.{◌≡◌, inr, refl, [], some}
use bzapi.Base.Text.{codes}
use bzapi.Http.{Url, match_url}
use bzapi.Http.Urls.{IsUrl, slash, match_url-to_url}

abbrev infura : Url
infura = record {
  protocol = codes "https";
  host = codes "infura.io";
  port = [];
  path = codes "/v3";
}

infura-IsUrl : IsUrl infura
infura-IsUrl = record {
  protocol_is = inr refl;
  some_host = refl;
  host_is = (refl, (refl, (refl, (refl, (refl, (refl, (refl, (refl, (refl, tt)))))))));
  port_is = tt;
  path_is = slash (codes "v3") (refl, (refl, tt));
}

match_url-to_url_example : match_url (codes "https://infura.io/v3") ≡ some infura
match_url-to_url_example = match_url-to_url infura infura-IsUrl
