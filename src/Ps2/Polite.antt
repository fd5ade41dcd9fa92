-- ===== src/Ps2/Polite.antt =====
-- The protocol of the controller: a byte is written only right after the status register said that
-- there is room for it and no error, and one is read only right after the status said that there
-- is one.
use maple_kernel.Base.{ℕ, suc, ◌≤◌, ◌≡◌, Bool, false, not, ◌&&◌, ◌||◌, [], ◌∷◌, ◌==◌, if◌then◌else◌}
use maple_kernel.Ps2.{read_port, write_port, Trace}
use maple_kernel.Ps2.Registers.{
  ps2_data_port, ps2_status_port, input_buffer_full, output_buffer_full, timeout_error,
  parity_error,
}

-- The last access read a status that invites a write, or a read.
abbrev pub input_ready : Trace → Bool
input_ready (read_port p v ∷ t) =
    (p == ps2_status_port)
    && (not (input_buffer_full v) && (not (parity_error v) && not (timeout_error v)))
input_ready (write_port p v ∷ t) = false
input_ready [] = false

abbrev pub output_ready : Trace → Bool
output_ready (read_port p v ∷ t) = (p == ps2_status_port) && output_buffer_full v
output_ready (write_port p v ∷ t) = false
output_ready [] = false

-- How many bytes were written, or read from the data port, with no such invitation. Port 0x80 is
-- not a port of the controller.
abbrev pub unguarded_writes : Trace → ℕ
unguarded_writes (write_port p v ∷ t) =
    if p == 0x80 || input_ready t then unguarded_writes t else suc (unguarded_writes t)
unguarded_writes (read_port p v ∷ t) = unguarded_writes t
unguarded_writes [] = 0

abbrev pub unguarded_reads : Trace → ℕ
unguarded_reads (read_port p v ∷ t) =
    if not (p == ps2_data_port) || output_ready t
    then unguarded_reads t
    else suc (unguarded_reads t)
unguarded_reads (write_port p v ∷ t) = unguarded_reads t
unguarded_reads [] = 0

-- No unguarded write, and at most `n` unguarded reads.
abbrev pub IsPolite : ℕ → Trace → Type 0
IsPolite n t = (unguarded_writes t ≡ 0) × (unguarded_reads t ≤ n)
