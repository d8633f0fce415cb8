-- ===== src/Zram/Machine.antt =====
-- What configure_zram.py is given and calls: the command line, the files of the kernel and the
-- tools; the exceptions that end a run; and programs that may raise them.
use pyntara.Shared.{ℕ, Bool, Option, List}
use pyntara.Text.{Text}
use pyntara.Effects.{Answer}

-- Numbers of the command line are natural numbers here; the timeout is a matter of the tools.
pub record Config : Type 0 where
  pub meminfo_path : Text
  pub meminfo_total_key : Text
  pub cpuinfo_processor_key : Text
  pub compressor : Text
  pub swap_priority : ℕ
  pub memory_fraction_percent : ℕ
  pub percent_scale : ℕ
  pub fallback_cpu_count : ℕ
  pub alignment_bytes : ℕ
  pub bytes_per_kib : ℕ
  pub module_name : Text
  pub reset_busy_attempts : ℕ
  pub force : Bool

-- A tool that is not installed (with the name or the path that is reported), one that overran its
-- timeout, or one that ended.
pub data Ran : Type 0 where
  missing : (name : Text) → Ran
  overran : (text : Text) → Ran
  ended : (returncode : ℕ) → (stdout stderr : Text) → Ran

-- A write of a kernel file: done, OSError with EBUSY, or another OSError.
pub data Written : Type 0 where
  written : Written
  busy : Text → Written
  rejected : Text → Written

-- Reads answer from the machine's state and leave it; `read_hot_add` is the read that adds a device.
pub record Kernel (W : Type 0) : Type 0 where
  pub meminfo : W → Answer Text
  pub cpuinfo : W → Answer Text
  -- the names in /sys/block, none when it is no directory
  pub block_names : W → Option (List Text)
  pub disksize : (device : Text) → W → Answer Text
  pub comp_algorithm : (device : Text) → W → Answer Text
  -- swapon --show --noheadings
  pub show_swaps : W → Ran
  -- the mode of hot_add
  pub hot_add_mode : W → Answer ℕ
  pub read_hot_add : W → Answer Text × W
  pub write_hot_add : (value : Text) → W → Written × W
  pub write_hot_remove : (value : Text) → W → Written × W
  pub write_attribute : (device attribute value : Text) → W → Written × W
  -- modprobe, swapoff, mkswap and swapon, with their arguments
  pub run_tool : (tool : Text) → (arguments : List Text) → W → Ran × W
  -- time.sleep(reset_busy_retry_delay_seconds)
  pub pause : W → W
  -- repr of a text
  pub repr : Text → Text

-- ZramError, subprocess.TimeoutExpired, and the exceptions that `main` does not catch.
pub data Raised : Type 0 where
  zram_error : Text → Raised
  timeout_expired : Text → Raised
  uncaught : Text → Raised

pub data Result (A : Type 0) : Type 0 where
  done : A → Result A
  failed : Raised → Result A

abbrev pub Program : Type 0 → Type 0 → Type 0
Program W A = W → Result A × W

module _ {W A : Type 0} where
  unfoldable pub pure : A → Program W A
  pure a w = (done a, w)

  unfoldable pub raise : Raised → Program W A
  raise e w = (failed e, w)

  -- A part without effects.
  unfoldable pub from : Result A → Program W A
  from r w = (r, w)

  unfoldable pub call : (W → A × W) → Program W A
  call f w = let (a, w') = f w in (done a, w')

module _ {W A B : Type 0} where
  infixl 5 ◌>>=◌
  abbrev pub followed_by : Result A → (A → Program W B) → W → Result B × W
  followed_by (done a) f w = f a w
  followed_by (failed e) f w = (failed e, w)

  -- Unfolding this unfolds `pure`, `raise`, `from` and `call` too.
  unfoldable pub ◌>>=◌ : Program W A → (A → Program W B) → Program W B
  unfolding pure raise from call
  ◌>>=◌ m f w = let (r, w') = m w in followed_by r f w'

abbrev pub bind_result : {A B : Type 0} → Result A → (A → Result B) → Result B
bind_result (done a) f = f a
bind_result (failed e) f = failed e

abbrev pub Outcome : Type 0
Outcome = Bool × List Text
