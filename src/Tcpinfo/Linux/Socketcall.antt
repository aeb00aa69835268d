-- ===== src/Tcpinfo/Linux/Socketcall.antt =====
-- pkg/tcpinfo/tcpinfo_linux_386.go: `GetRawTCPInfo` through socketcall(2), and its agreement with the
-- getsockopt(2) of the other architectures.
use sockstats.Common.{
  ℕ, ◌≡◌, ap, ◌∙◌, not, List, [], ◌∷◌, ◌==◌, if◌then◌else◌, Result, ok, err, arith,
}
use sockstats.Tcpinfo.Linux.Get.{Error, errno, Sockopts, get_raw_tcp_info}
use sockstats.Tcpinfo.Linux.Raw.{RawTcpInfo}

abbrev pub net_get_sock_opt : ℕ
net_get_sock_opt = 15

abbrev pub sol_tcp : ℕ
sol_tcp = 6

abbrev pub tcp_info : ℕ
tcp_info = 11

-- What a system call gives: its errno, and the struct that it has written.
abbrev pub Answer : Type 0
Answer = ℕ × RawTcpInfo

-- The two places in memory that the kernel writes to.
pub record Pointers : Type 0 where
  pub value : ℕ
  pub length : ℕ

-- The array `args` of the call.
abbrev pub args : ℕ → Pointers → List ℕ
args fd p = fd ∷ sol_tcp ∷ tcp_info ∷ p.value ∷ p.length ∷ []

abbrev pub eagain : ℕ
eagain = 11

abbrev pub einval : ℕ
einval = 22

abbrev pub enoent : ℕ
enoent = 2

-- The switch over an errno that is not 0: three of them are returned as values of the package.
unfoldable pub error_of : ℕ → Error
error_of err_no =
    if err_no == eagain
    then errno eagain
    else if err_no == einval
    then errno einval
    else if err_no == enoent
    then errno enoent
    else errno err_no

abbrev pub answered : Answer → Result Error RawTcpInfo
answered (err_no, value) = if not (err_no == 0) then err (error_of err_no) else ok value

-- `GetRawTCPInfo` on 386; `socketcall` is the kernel's, of a call's number and its arguments.
unfoldable pub get_raw_tcp_info_386 : (ℕ → List ℕ → Answer) → ℕ → Pointers → Result Error RawTcpInfo
unfolding error_of
get_raw_tcp_info_386 socketcall fd p = answered (socketcall net_get_sock_opt (args fd p))

-- Where socketcall answers its call 15 as getsockopt answers for the same socket, the two variants
-- of `GetRawTCPInfo` return the same struct or the same error.
get_raw_tcp_info_386-same :
    (socketcall : ℕ → List ℕ → Answer) (fd : ℕ) (p : Pointers) (k : Sockopts)
    → socketcall net_get_sock_opt (args fd p) ≡ (k.raw_errno, k.raw)
    → get_raw_tcp_info_386 socketcall fd p ≡ get_raw_tcp_info k
unfolding get_raw_tcp_info_386 get_raw_tcp_info error_of
get_raw_tcp_info_386-same socketcall fd p k h = ap answered h ∙ ground arith
