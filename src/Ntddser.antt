-- ===== src/Ntddser.antt =====
-- Constants of the WDK header ntddser.h that the driver uses, at their documented values.
use ghostcom.Base.{ℕ}

-- Events of a wait mask: SERIAL_EV_*.
abbrev pub ev_rxchar : ℕ
ev_rxchar = 0x0001

abbrev pub ev_txempty : ℕ
ev_txempty = 0x0004

abbrev pub ev_cts : ℕ
ev_cts = 0x0008

abbrev pub ev_dsr : ℕ
ev_dsr = 0x0010

abbrev pub ev_rlsd : ℕ
ev_rlsd = 0x0020

abbrev pub ev_break : ℕ
ev_break = 0x0040

-- Modem lines: SERIAL_*_STATE.
abbrev pub dtr_line : ℕ
dtr_line = 0x01

abbrev pub rts_line : ℕ
rts_line = 0x02

abbrev pub cts_line : ℕ
cts_line = 0x10

abbrev pub dsr_line : ℕ
dsr_line = 0x20

abbrev pub dcd_line : ℕ
dcd_line = 0x80

-- SERIAL_PURGE_*
abbrev pub purge_txabort : ℕ
purge_txabort = 0x01

abbrev pub purge_rxabort : ℕ
purge_rxabort = 0x02

abbrev pub purge_txclear : ℕ
purge_txclear = 0x04

abbrev pub purge_rxclear : ℕ
purge_rxclear = 0x08

-- SERIAL_MCR_*
abbrev pub mcr_dtr : ℕ
mcr_dtr = 0x01

abbrev pub mcr_rts : ℕ
mcr_rts = 0x02
