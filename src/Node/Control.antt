-- ===== src/Node/Control.antt =====
-- node/control.go: the calls circular-stop and circular-resume.
use circular.Prelude.{String, true, false}
use circular.Node.State.{Node, set_stopped}

-- the type of both results: Call of Resume returns a Stop, too
pub record Stop : Type 0 where
  pub message : String

module _ {D L : Type 0} where
  unfoldable pub call_stop : Node D L → Stop × Node D L
  unfolding set_stopped
  call_stop n = (
    record {
      message = "circular has been stopped. New commands will not fire htlcs until resumed";
    },
    set_stopped true n,
  )

  unfoldable pub call_resume : Node D L → Stop × Node D L
  unfolding set_stopped
  call_resume n = (record { message = "circular has been resumed" }, set_stopped false n)
