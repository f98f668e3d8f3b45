-- ===== src/Drivedb/Table.antt =====
-- backends/exec/drivedb.h from line 3919 on, in texts of 150 lines at most: Ata has the entries of ATA disks,
-- Usb those of USB bridges. A line break inside a text is `\n`; the breaks between two texts are left out.
pub mod Ata01
pub mod Ata02
pub mod Ata03
pub mod Ata04
pub mod Ata05
pub mod Ata06
pub mod Ata07
pub mod Ata08
pub mod Ata09
pub mod Ata10
pub mod Ata11
pub mod Usb01
pub mod Usb02
pub mod Usb03
pub mod Usb04
pub mod Usb05
pub mod Usb06
pub mod Usb07
pub mod Usb08
pub mod Usb09
pub mod Usb10
pub mod Usb11
