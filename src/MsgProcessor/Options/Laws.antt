-- ===== src/MsgProcessor/Options/Laws.antt =====
-- Reading a switch after a write.
use root_open_im_server.Base.{String, Bool, str_eq, eq_iff, if◌then◌else◌, ◌≡◌, arith}
use root_open_im_server.Base.Dict.{insert, lookup-insert}
use root_open_im_server.MsgProcessor.Options.{Options, is}

pub is-insert :
    (o : Options) (k j : String) (b : Bool)
    → is (insert k b o) j ≡ (if str_eq k j then b else is o j)
unfolding is
is-insert o k j b = ground (arith, eq_iff k j, lookup-insert k j b o)
