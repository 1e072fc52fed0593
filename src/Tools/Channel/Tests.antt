-- ===== src/Tools/Channel/Tests.antt =====
-- Runs of `SafeClose`.
use aliyun_ahas.Common.{[], ◌∷◌, true, false, ◌≡◌, refl}
use aliyun_ahas.Tools.Channel.{nil_channel, open_channel, closed_channel, safe_close, close_often}

closes_nil : safe_close nil_channel ≡ (false, nil_channel)
unfolding safe_close
closes_nil = refl

closes_thrice : close_often 3 open_channel ≡ (true ∷ false ∷ false ∷ [], closed_channel)
unfolding safe_close
closes_thrice = refl
