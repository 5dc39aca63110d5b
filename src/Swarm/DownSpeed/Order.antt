-- ===== src/Swarm/DownSpeed/Order.antt =====
-- The order that DSComp makes of the queue.
use socket_template.Base.{◌≡◌, true, false, arith}
use socket_template.Swarm.DownSpeed.{Speed, ds_comp}

pub ds_comp_asym : (a b : Speed) → ds_comp a b ≡ true → ds_comp b a ≡ false
unfolding ds_comp
ds_comp_asym a b e = ground arith

pub ds_comp_trans :
    (a b c : Speed) → ds_comp a b ≡ false → ds_comp b c ≡ false → ds_comp a c ≡ false
unfolding ds_comp
ds_comp_trans a b c e e' = ground arith
