-- ===== src/Crypto/NullCrypto.antt =====
-- crypto/null_crypto.hpp: it signs nothing and accepts everything.
use bzapi.Base.{Bool, true}
use bzapi.Messages.{Envelope}

pub sign : Envelope → Envelope × Bool
sign msg = (msg, true)

pub verify : Envelope → Bool
verify msg = true
